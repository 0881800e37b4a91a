-- ===== src/Niri/Replace.antt =====
-- `NiriAdapter::apply` over runs of events, and what a full snapshot leaves.
use melibea.Base.{
  ◌≡◌, ◌<◌, ◌≤◌, ◌⊎◌, refl, sym, ap, ◌∙◌, inl, inr, true, false, ◌&&◌, List, [], ◌∷◌, none, some,
  ok, err, ltb, length, head?, Bool-cases, Option-cases, arith, subst, map,
}
use melibea.Base.OrdMap
use melibea.Base.OrdMap.{OrdMap}
use melibea.Config.{Config}
use melibea.Transition.{
  WindowId, AttentionEngine, FocusTransition, new_engine, upsert_window, remove_window,
  synchronize_focus,
}
use melibea.Transition.Registry.{
  IsValid, upsert-IsValid, remove-IsValid, new-IsValid, synchronize-IsValid,
}
use melibea.Niri.{
  NiriWindow, into_record, NiriEvent, windows_changed, minimized_windows_changed,
  window_opened_or_changed, window_closed, window_focus_changed, ignored, signature_from,
  NiriAdapter, multiple_focused_windows, new_adapter, remove_all, upsert_all, focused_ids,
  next_windows, gone_windows, replaced_engine, replace_windows, relevant_change, open_or_change,
  apply,
}
use melibea.Niri.Snapshot.{last_window, get-next_windows}
use melibea.Niri.Consistency.{
  Agrees, signed, signature_of-into_record, focused-Agrees, upsert-Agrees, remove-Agrees,
  get-replaced_engine,
}

remove_all-IsValid :
    (e : AttentionEngine) (ids : List WindowId) → IsValid e → IsValid (remove_all e ids)
unfolding remove_all
remove_all-IsValid e [] v = v
remove_all-IsValid e (id ∷ ids) v =
    remove_all-IsValid (remove_window e id).0 ids (remove-IsValid e id v)

upsert_all-IsValid :
    (e : AttentionEngine) (ws : List NiriWindow) → IsValid e → IsValid (upsert_all e ws)
unfolding upsert_all
upsert_all-IsValid e [] v = v
upsert_all-IsValid e (w ∷ ws) v =
    upsert_all-IsValid (upsert_window e (into_record w)) ws (upsert-IsValid e (into_record w) v)

module _ (a : NiriAdapter) (ws : List NiriWindow) (g : Agrees a) where
  replaced-IsValid : IsValid (replaced_engine a ws)
  unfolding replaced_engine
  replaced-IsValid =
      upsert_all-IsValid (remove_all a.engine (gone_windows a.known_windows (next_windows ws))) ws
        (remove_all-IsValid a.engine (gone_windows a.known_windows (next_windows ws)) g.valid)

  abbrev synchronized : AttentionEngine × FocusTransition
  synchronized = synchronize_focus (replaced_engine a ws) (head? (focused_ids ws))

  synchronized-windows : synchronized.0.windows ≡ (replaced_engine a ws).windows
  unfolding synchronize_focus
  synchronized-windows = refl

  synchronized-focus : synchronized.0.focus ≡ head? (focused_ids ws)
  unfolding synchronize_focus
  synchronized-focus = refl

  replaced-known :
      (k : WindowId)
      → OrdMap.get k (next_windows ws) ≡ signed (OrdMap.get k (replaced_engine a ws).windows)
  replaced-known k = get-next_windows k ws ∙ elim (Option-cases (last_window k ws)) [
    | inl missing ↦ rw (get-replaced_engine a ws g k) (rw missing refl)
    | inr (w, listed) ↦
        rw (get-replaced_engine a ws g k) (rw listed (ap some (sym (signature_of-into_record w))))
  ]

  replaced-Agrees : Agrees (record { engine = synchronized.0; known_windows = next_windows ws })
  replaced-Agrees = record {
    known = λ k. rw synchronized-windows (replaced-known k);
    sorted = OrdMap.collect_from-IsSorted [] (map (λ w. (w.id, signature_from w)) ws) tt;
    valid = synchronize-IsValid (replaced_engine a ws) (head? (focused_ids ws)) replaced-IsValid;
  }

  replace-refused :
      ltb 1 (length (focused_ids ws)) ≡ true
      → replace_windows a ws ≡ (a, err (multiple_focused_windows (focused_ids ws)))
  unfolding replace_windows
  replace-refused h = rw (h, replace_windows)

  replace-taken :
      ltb 1 (length (focused_ids ws)) ≡ false
      → replace_windows a ws ≡ (
        record { engine = synchronized.0; known_windows = next_windows ws },
        ok (some synchronized.1),
      )
  unfolding replace_windows
  replace-taken h = rw (h, replace_windows)

  replace-Agrees : Agrees (replace_windows a ws).0
  replace-Agrees = elim (Bool-cases (ltb 1 (length (focused_ids ws)))) [
    | inl many ↦ subst (λ r. Agrees r.0) (sym (replace-refused many)) g
    | inr one ↦ subst (λ r. Agrees r.0) (sym (replace-taken one)) replaced-Agrees
  ]

open-Agrees : (a : NiriAdapter) (w : NiriWindow) → Agrees a → Agrees (open_or_change a w).0
unfolding open_or_change
open-Agrees a w g = elim (Bool-cases (w.is_focused && relevant_change a w)) [
  | inl moves ↦ rw moves (focused-Agrees _ _ (some w.id) (upsert-Agrees a w g))
  | inr stays ↦ rw stays (upsert-Agrees a w g)
]

pub apply-Agrees : (a : NiriAdapter) (e : NiriEvent) → Agrees a → Agrees (apply a e).0
unfolding apply
apply-Agrees a (windows_changed windows) g = replace-Agrees a windows g
apply-Agrees a (minimized_windows_changed windows) g = g
apply-Agrees a (window_opened_or_changed w) g = open-Agrees a w g
apply-Agrees a (window_closed id) g = remove-Agrees a id g
apply-Agrees a (window_focus_changed id) g = focused-Agrees a.engine a.known_windows id g
apply-Agrees a (ignored name) g = g

unfoldable pub apply_events : NiriAdapter → List NiriEvent → NiriAdapter
apply_events a [] = a
apply_events a (e ∷ es) = apply_events (apply a e).0 es

apply_events-Agrees :
    (a : NiriAdapter) (es : List NiriEvent) → Agrees a → Agrees (apply_events a es)
unfolding apply_events
apply_events-Agrees a [] g = g
apply_events-Agrees a (e ∷ es) g = apply_events-Agrees (apply a e).0 es (apply-Agrees a e g)

pub new-Agrees : (config : Config) → Agrees (new_adapter config)
unfolding new_engine OrdMap.get
new-Agrees config = record { known = λ k. refl; sorted = tt; valid = new-IsValid config }

-- After any events on a new adapter, refused ones among them, its known windows are exactly the windows
-- of its engine, each with the title, application and floating state that the engine's record has, both
-- in ascending order.
pub apply_events-new-Agrees :
    (config : Config) (es : List NiriEvent) → Agrees (apply_events (new_adapter config) es)
apply_events-new-Agrees config es = apply_events-Agrees (new_adapter config) es (new-Agrees config)

-- What a snapshot that is taken leaves and gives.
pub record Replaced (a : NiriAdapter) (ws : List NiriWindow) : Type 0 where
  pub transition : FocusTransition
  pub returned : (apply a (windows_changed ws)).1 ≡ ok (some transition)
  pub windows :
      (k : WindowId)
      → OrdMap.get k (apply a (windows_changed ws)).0.engine.windows
        ≡ elim (last_window k ws) [ none ↦ none | some w ↦ some (into_record w) ]
  pub focus : (apply a (windows_changed ws)).0.engine.focus ≡ head? (focused_ids ws)

-- A snapshot that marks several windows as focused changes nothing and is refused with all of them.
-- Any other leaves the engine with exactly the windows that it lists, by the last entry for each id and
-- whatever was known before, and with the focus that it marks, if any.
pub snapshot-Replaced :
    (a : NiriAdapter) (ws : List NiriWindow)
    → Agrees a
    → ((1 < length (focused_ids ws))
        × (apply a (windows_changed ws) ≡ (a, err (multiple_focused_windows (focused_ids ws)))))
      ⊎ ((length (focused_ids ws) ≤ 1) × Replaced a ws)
unfolding apply
snapshot-Replaced a ws g = elim (Bool-cases (ltb 1 (length (focused_ids ws)))) [
  | inl many ↦ inl (ground arith, replace-refused a ws g many)
  | inr one ↦
      let e = replace-taken a ws g one in
      inr (
        ground arith,
        record {
          transition = (synchronized a ws g).1;
          returned = ap (λ r. r.1) e;
          windows = λ k.
              ap (λ r. OrdMap.get k r.0.engine.windows) e
              ∙ ap (OrdMap.get k) (synchronized-windows a ws g)
              ∙ get-replaced_engine a ws g k;
          focus = ap (λ r. r.0.engine.focus) e ∙ synchronized-focus a ws g;
        },
      )
]
