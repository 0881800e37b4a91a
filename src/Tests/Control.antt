-- ===== src/Tests/Control.antt =====
-- main.rs: messages of the event reader.
use melibea.Base.{true, [], ◌∷◌, none, some, ok}
use melibea.Executor.{no_resizes}
use melibea.Executor.Consistency.{no_resizes-IsConsistent}
use melibea.Minimization.{MinimizedWindow, empty_registry}
use melibea.Niri.{minimized_windows_changed, new_adapter}
use melibea.Niri.Replace.{apply_events, apply_events-new-Agrees}
use melibea.Controller.{Controller, ingest_stream_message}
use melibea.Controller.Sound.{IsWell, KeepsWell, ingest_stream_message-KeepsWell}
use melibea.Tests.Fixtures.{config}
use melibea.Tests.Adapter.{events}

abbrev running : Controller
running = record {
  adapter = apply_events (new_adapter config) events;
  pending = no_resizes;
  minimized = empty_registry;
}

running-IsWell : IsWell running
running-IsWell = record {
  agrees = apply_events-new-Agrees config events;
  consistent = no_resizes-IsConsistent;
  distinct = tt;
}

parked : MinimizedWindow
parked = record { id = 4; app_id = some "kitty"; title = none }

ingest_stream_message-KeepsWell_example :
    KeepsWell
      (ingest_stream_message true running (ok (some (minimized_windows_changed (parked ∷ [])))))
ingest_stream_message-KeepsWell_example =
    ingest_stream_message-KeepsWell true running
      (ok (some (minimized_windows_changed (parked ∷ [])))) running-IsWell
