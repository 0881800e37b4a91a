-- ===== src/Niri/Snapshot.antt =====
-- What the loops of `replace_windows` leave, window by window.
use melibea.Base.{
  ◌≡◌, refl, ◌∙◌, inl, inr, not, ◌&&◌, List, [], ◌∷◌, Option, none, some, if◌then◌else◌, ◌==◌, any,
  map, is_some, Bool-cases, Option-cases, arith,
}
use melibea.Base.OrdMap
use melibea.Base.OrdMap.{OrdMap}
use melibea.Transition.{WindowId, AttentionEngine, upsert_window, remove_window}
use melibea.Niri.{
  NiriWindow, into_record, WindowSignature, signature_from, remove_all, upsert_all, next_windows,
  gone_windows,
}

-- The last window with the id.
abbrev pub last_window : WindowId → List NiriWindow → Option NiriWindow
last_window k [] = none
last_window k (w ∷ ws) =
    let later = last_window k ws in
    elim later [ some l ↦ some l | none ↦ if k == w.id then some w else none ]

pub get-upsert_all :
    (k : WindowId) (e : AttentionEngine) (ws : List NiriWindow)
    → OrdMap.get k (upsert_all e ws).windows
      ≡ elim (last_window k ws) [ none ↦ OrdMap.get k e.windows | some w ↦ some (into_record w) ]
unfolding upsert_all upsert_window
get-upsert_all k e [] = refl
get-upsert_all k e (w ∷ ws) = elim (Option-cases (last_window k ws)) [
  | inr (l, found) ↦ get-upsert_all k (upsert_window e (into_record w)) ws ∙ rw found
  | inl missing ↦
      get-upsert_all k (upsert_window e (into_record w)) ws
      ∙ rw missing (OrdMap.get-insert w.id k (into_record w) e.windows ∙ ground arith)
]

get-collect_from :
    (k : WindowId) (m : OrdMap WindowSignature) (ws : List NiriWindow)
    → OrdMap.get k (OrdMap.collect_from m (map (λ w. (w.id, signature_from w)) ws))
      ≡ elim (last_window k ws) [ none ↦ OrdMap.get k m | some w ↦ some (signature_from w) ]
unfolding OrdMap.collect_from
get-collect_from k m [] = refl
get-collect_from k m (w ∷ ws) = elim (Option-cases (last_window k ws)) [
  | inr (l, found) ↦ get-collect_from k (OrdMap.insert w.id (signature_from w) m) ws ∙ rw found
  | inl missing ↦
      get-collect_from k (OrdMap.insert w.id (signature_from w) m) ws
      ∙ rw missing (OrdMap.get-insert w.id k (signature_from w) m ∙ ground arith)
]

pub get-next_windows :
    (k : WindowId) (ws : List NiriWindow)
    → OrdMap.get k (next_windows ws)
      ≡ elim (last_window k ws) [ none ↦ none | some w ↦ some (signature_from w) ]
unfolding OrdMap.get
get-next_windows k ws = get-collect_from k [] ws

pub get-remove_all :
    (k : WindowId) (e : AttentionEngine) (ids : List WindowId)
    → OrdMap.get k (remove_all e ids).windows
      ≡ (if any (λ id. id == k) ids then none else OrdMap.get k e.windows)
unfolding remove_all remove_window
get-remove_all k e [] = refl
get-remove_all k e (id ∷ ids) =
    get-remove_all k (remove_window e id).0 ids ∙ ground (arith, OrdMap.get-remove id k e.windows)

get-cons :
    (k j : WindowId) (s : WindowSignature) (m : OrdMap WindowSignature)
    → OrdMap.get k ((j, s) ∷ m) ≡ (if k == j then some s else OrdMap.get k m)
unfolding OrdMap.get
get-cons k j s m = ground arith

pub any-keys :
    (k : WindowId) (m next : OrdMap WindowSignature)
    → any (λ id. id == k) (gone_windows m next)
      ≡ (is_some (OrdMap.get k m) && not (OrdMap.contains_key k next))
any-keys k [] next = unfold OrdMap.get in refl
any-keys k ((j, s) ∷ m) next = elim (Bool-cases (OrdMap.contains_key j next)) [
  | inl stays ↦ ground (arith, any-keys k m next, get-cons k j s m)
  | inr goes ↦ ground (arith, any-keys k m next, get-cons k j s m)
]
