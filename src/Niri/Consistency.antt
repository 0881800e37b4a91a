-- ===== src/Niri/Consistency.antt =====
-- The adapter's windows against the engine's windows (niri.rs).
use melibea.Base.{
  ◌≡◌, refl, sym, ap, ◌∙◌, inl, inr, Bool, true, false, List, Option, none, some, ◌==◌, ◌=?◌,
  nat_eq, option_eq, Bool-cases, Option-cases, arith,
}
use melibea.Base.OrdMap
use melibea.Base.OrdMap.{OrdMap}
use melibea.Transition.{
  WindowId, WindowRecord, WindowEligibility, managed, excluded, AttentionEngine, upsert_window,
  remove_window, observe_focus, reevaluate_focus,
}
use melibea.Transition.Registry.{
  IsValid, upsert-IsValid, remove-IsValid, observe-IsValid, reevaluate-IsValid,
}
use melibea.Niri.{
  NiriWindow, into_record, WindowSignature, signature_from, NiriAdapter, apply_focus, remove_all,
  next_windows, gone_windows, replaced_engine,
}
use melibea.Niri.Snapshot.{last_window, get-upsert_all, get-next_windows, get-remove_all, any-keys}

-- What the engine's record of a window says about its signature.
abbrev pub is_excluded : WindowEligibility → Bool
is_excluded managed = false
is_excluded (excluded reason) = true

abbrev pub signature_of : WindowRecord → WindowSignature
signature_of r = record {
  title = r.title;
  app_id = r.app_id;
  is_floating = is_excluded r.eligibility;
}

abbrev pub signed : Option WindowRecord → Option WindowSignature
signed none = none
signed (some r) = some (signature_of r)

pub signature_of-into_record : (w : NiriWindow) → signature_of (into_record w) ≡ signature_from w
signature_of-into_record w = elim (Bool-cases w.is_floating) [
  | inl floats ↦ rw floats
  | inr tiled ↦ rw tiled
]

-- The adapter knows exactly the engine's windows, each by the signature that the engine's record has.
pub record Agrees (a : NiriAdapter) : Type 0 where
  pub known : (k : WindowId) → OrdMap.get k a.known_windows ≡ signed (OrdMap.get k a.engine.windows)
  pub sorted : OrdMap.IsSorted a.known_windows
  pub valid : IsValid a.engine

pub apply_focus-windows :
    (e : AttentionEngine) (f : Option WindowId) → (apply_focus e f).0.windows ≡ e.windows
unfolding apply_focus observe_focus reevaluate_focus
apply_focus-windows e f = elim (Bool-cases (e.focus =? f)) [
  | inl same ↦ rw same
  | inr moved ↦ rw moved
]

apply_focus-IsValid :
    (e : AttentionEngine) (f : Option WindowId) → IsValid e → IsValid (apply_focus e f).0
unfolding apply_focus
apply_focus-IsValid e f v = elim (Bool-cases (e.focus =? f)) [
  | inl same ↦ rw same (reevaluate-IsValid e v)
  | inr moved ↦ rw moved (observe-IsValid e f v)
]

-- `apply_focus` on an engine whose windows are known.
pub focused-Agrees :
    (e : AttentionEngine) (m : _) (f : Option WindowId)
    → Agrees (record { engine = e; known_windows = m })
    → Agrees (record { engine = (apply_focus e f).0; known_windows = m })
focused-Agrees e m f g = record {
  known = λ k. rw (apply_focus-windows e f) (g.known k);
  sorted = g.sorted;
  valid = apply_focus-IsValid e f g.valid;
}

pub upsert-Agrees :
    (a : NiriAdapter) (w : NiriWindow)
    → Agrees a
    → Agrees (record {
      engine = upsert_window a.engine (into_record w);
      known_windows = OrdMap.insert w.id (signature_from w) a.known_windows;
    })
unfolding upsert_window
upsert-Agrees a w g = record {
  known = λ k.
      OrdMap.get-insert w.id k (signature_from w) a.known_windows ∙ elim (Bool-cases (k == w.id)) [
        | inl same ↦
            rw (OrdMap.get-insert w.id k (into_record w) a.engine.windows)
              (rw same (ap some (sym (signature_of-into_record w))))
        | inr other ↦
            rw (OrdMap.get-insert w.id k (into_record w) a.engine.windows) (rw other (g.known k))
      ];
  sorted = OrdMap.insert-IsSorted w.id (signature_from w) a.known_windows g.sorted;
  valid = unfold upsert_window in upsert-IsValid a.engine (into_record w) g.valid;
}

pub remove-Agrees :
    (a : NiriAdapter) (id : WindowId)
    → Agrees a
    → Agrees (record {
      engine = (remove_window a.engine id).0;
      known_windows = OrdMap.remove id a.known_windows;
    })
unfolding remove_window
remove-Agrees a id g = record {
  known = λ k. OrdMap.get-remove id k a.known_windows ∙ elim (Bool-cases (k == id)) [
    | inl same ↦ rw (OrdMap.get-remove id k a.engine.windows) (rw same refl)
    | inr other ↦ rw (OrdMap.get-remove id k a.engine.windows) (rw other (g.known k))
  ];
  sorted = OrdMap.remove-IsSorted id a.known_windows g.sorted;
  valid = remove-IsValid a.engine id g.valid;
}

-- What is not in the snapshot is gone from the engine.
module _ (a : NiriAdapter) (ws : List NiriWindow) (g : Agrees a) where
  unlisted-gone :
      (k : WindowId)
      → last_window k ws ≡ none
      → OrdMap.get k (remove_all a.engine (gone_windows a.known_windows (next_windows ws))).windows
        ≡ none
  unlisted-gone k missing =
      get-remove_all k a.engine (gone_windows a.known_windows (next_windows ws))
      ∙ elim (Option-cases (OrdMap.get k a.engine.windows)) [
        | inl absent ↦ ground (arith, absent)
        | inr (r, held) ↦ ground (
          arith,
          held,
          g.known k,
          any-keys k a.known_windows (next_windows ws),
          get-next_windows k ws,
          missing,
        )
      ]

  -- The windows of the engine are those of the snapshot, whatever they were.
  pub get-replaced_engine :
      (k : WindowId)
      → OrdMap.get k (replaced_engine a ws).windows
        ≡ elim (last_window k ws) [ none ↦ none | some w ↦ some (into_record w) ]
  unfolding replaced_engine
  get-replaced_engine k =
      get-upsert_all k (remove_all a.engine (gone_windows a.known_windows (next_windows ws))) ws
      ∙ elim (Option-cases (last_window k ws)) [
        | inl missing ↦ rw missing (unlisted-gone k missing)
        | inr (w, listed) ↦ rw listed refl
      ]
