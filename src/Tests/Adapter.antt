-- ===== src/Tests/Adapter.antt =====
-- niri.rs and health.rs.
use melibea.Base.{ℕ, ◌≡◌, ◌⊎◌, ◌<◌, ◌≤◌, refl, Bool, true, false, [], ◌∷◌, List, some, err, length}
use melibea.Niri.{
  NiriWindow, NiriEvent, windows_changed, window_opened_or_changed, window_closed, new_adapter,
  focused_ids, multiple_focused_windows, apply, replace_windows,
}
use melibea.Niri.Consistency.{Agrees}
use melibea.Niri.Replace.{apply_events, apply_events-new-Agrees, Replaced, snapshot-Replaced}
use melibea.Tests.Fixtures.{config}

abbrev niri_window : ℕ → Bool → Bool → NiriWindow
niri_window id is_focused is_floating = record {
  id = id;
  title = some "window";
  app_id = some "kitty";
  is_focused = is_focused;
  is_floating = is_floating;
}

abbrev pub events : List NiriEvent
events =
    windows_changed (niri_window 10 true false ∷ niri_window 20 false true ∷ [])
    ∷ window_opened_or_changed (niri_window 30 true false)
    ∷ window_closed 20
    ∷ []

apply_events-new-Agrees_example : Agrees (apply_events (new_adapter config) events)
apply_events-new-Agrees_example = apply_events-new-Agrees config events

abbrev two_focused : List NiriWindow
two_focused = niri_window 10 true false ∷ niri_window 20 true false ∷ []

-- `rejects_snapshot_with_multiple_focused_windows_atomically` of the unit tests.
two_focused_refused :
    (apply (new_adapter config) (windows_changed two_focused)).1
    ≡ err (multiple_focused_windows (10 ∷ 20 ∷ []))
unfolding apply replace_windows
two_focused_refused = refl

abbrev next_snapshot : List NiriWindow
next_snapshot = niri_window 40 true false ∷ niri_window 30 false false ∷ []

snapshot-Replaced_example :
    ((1 < length (focused_ids next_snapshot))
      × (apply (apply_events (new_adapter config) events) (windows_changed next_snapshot) ≡ (
        apply_events (new_adapter config) events,
        err (multiple_focused_windows (focused_ids next_snapshot)),
      )))
    ⊎ ((length (focused_ids next_snapshot) ≤ 1)
        × Replaced (apply_events (new_adapter config) events) next_snapshot)
snapshot-Replaced_example =
    snapshot-Replaced (apply_events (new_adapter config) events) next_snapshot
      (apply_events-new-Agrees config events)

abbrev healthy : List NiriWindow
healthy = niri_window 10 true false ∷ niri_window 20 false true ∷ niri_window 30 false false ∷ []
