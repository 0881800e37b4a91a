-- ===== src/Niri/Lawful.antt =====
-- The adapter of niri.rs keeps its configuration, and passes on only transitions that follow it.
use melibea.Base.{
  ◌≡◌, refl, subst, ◌∙◌, inl, inr, List, [], ◌∷◌, Option, none, some, Result, ok, err, head?,
  length, ltb, ◌&&◌, ◌=?◌, option_eq, nat_eq, Bool-cases,
}
use melibea.Config.{Config}
use melibea.Transition.{
  WindowId, FocusTransition, AttentionEngine, upsert_window, remove_window, synchronize_focus,
}
use melibea.Transition.Lawful.{
  IsLawfulTransition, IsLawfulStep, observe_focus-IsLawfulStep, reevaluate_focus-IsLawfulStep,
  synchronize_focus-IsLawfulStep,
}
use melibea.Niri.{
  NiriWindow, NiriEvent, windows_changed, minimized_windows_changed, window_opened_or_changed,
  window_closed, window_focus_changed, ignored, NiriAdapter, NiriAdapterError, AdapterResult,
  apply_focus, remove_all, upsert_all, focused_ids, next_windows, gone_windows, replaced_engine,
  replace_windows, relevant_change, open_or_change, into_record, apply,
}

abbrev pub IsLawfulOption : Config → Option FocusTransition → Type 0
IsLawfulOption config none = Unit {0}
IsLawfulOption config (some t) = IsLawfulTransition config t

abbrev pub IsLawfulAnswer : Config → Result NiriAdapterError (Option FocusTransition) → Type 0
IsLawfulAnswer config (err e) = Unit {0}
IsLawfulAnswer config (ok t) = IsLawfulOption config t

abbrev pub IsLawfulResult : Config → AdapterResult → Type 0
IsLawfulResult config out = (out.0.engine.config ≡ config) × IsLawfulAnswer config out.1

apply_focus-IsLawfulStep :
    (e : AttentionEngine) (f : Option WindowId) → IsLawfulStep e.config (apply_focus e f)
unfolding apply_focus
apply_focus-IsLawfulStep e f = elim (Bool-cases (e.focus =? f)) [
  | inl same ↦ rw same (reevaluate_focus-IsLawfulStep e)
  | inr moved ↦ rw moved (observe_focus-IsLawfulStep e f)
]

remove_all-config :
    (e : AttentionEngine) (ids : List WindowId) → (remove_all e ids).config ≡ e.config
unfolding remove_all remove_window
remove_all-config e [] = refl
remove_all-config e (id ∷ ids) = remove_all-config (remove_window e id).0 ids

upsert_all-config :
    (e : AttentionEngine) (ws : List NiriWindow) → (upsert_all e ws).config ≡ e.config
unfolding upsert_all upsert_window
upsert_all-config e [] = refl
upsert_all-config e (w ∷ ws) = upsert_all-config (upsert_window e (into_record w)) ws

replaced_engine-config :
    (a : NiriAdapter) (ws : List NiriWindow) → (replaced_engine a ws).config ≡ a.engine.config
unfolding replaced_engine
replaced_engine-config a ws =
    upsert_all-config _ ws
    ∙ remove_all-config a.engine (gone_windows a.known_windows (next_windows ws))

replace-IsLawfulResult :
    (a : NiriAdapter) (ws : List NiriWindow) → IsLawfulResult a.engine.config (replace_windows a ws)
unfolding replace_windows
replace-IsLawfulResult a ws = elim (Bool-cases (ltb 1 (length (focused_ids ws)))) [
  | inl many ↦ rw many (refl, tt)
  | inr one ↦ rw one (
      subst
        (λ c. IsLawfulStep c (synchronize_focus (replaced_engine a ws) (head? (focused_ids ws))))
        (replaced_engine-config a ws)
        (synchronize_focus-IsLawfulStep (replaced_engine a ws) (head? (focused_ids ws))))
]

open-IsLawfulResult :
    (a : NiriAdapter) (w : NiriWindow) → IsLawfulResult a.engine.config (open_or_change a w)
unfolding open_or_change upsert_window
open-IsLawfulResult a w = elim (Bool-cases (w.is_focused && relevant_change a w)) [
  | inl moves ↦
      rw moves (apply_focus-IsLawfulStep (upsert_window a.engine (into_record w)) (some w.id))
  | inr stays ↦ rw stays (refl, tt)
]

pub apply-IsLawfulResult :
    (a : NiriAdapter) (e : NiriEvent) → IsLawfulResult a.engine.config (apply a e)
unfolding apply remove_window
apply-IsLawfulResult a (windows_changed ws) = replace-IsLawfulResult a ws
apply-IsLawfulResult a (minimized_windows_changed ws) = (refl, tt)
apply-IsLawfulResult a (window_opened_or_changed w) = open-IsLawfulResult a w
apply-IsLawfulResult a (window_closed id) = (refl, tt)
apply-IsLawfulResult a (window_focus_changed id) = apply_focus-IsLawfulStep a.engine id
apply-IsLawfulResult a (ignored name) = (refl, tt)
