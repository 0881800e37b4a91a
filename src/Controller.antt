-- ===== src/Controller.antt =====
-- main.rs: what the controller does with one message of the niri event reader. The socket service
-- answers whether it took a published snapshot.
pub mod Sound
pub mod Execute
pub mod Watcher
pub mod Run
pub mod Connection
pub mod Lawful
pub mod Guarded
pub mod Kept
pub mod Daemon
pub mod Alive
pub mod Served
pub mod Drained
use melibea.Base.{
  ◌≡◌, Bool, true, false, String, List, [], ◌∷◌, Option, none, some, Result, ok, err, map,
  if◌then◌else◌,
}
use melibea.Transition.{FocusTransition}
use melibea.Executor.{PendingResizes, ingest, forget_window, reset}
use melibea.Minimization
use melibea.Minimization.{MinimizedRegistry, MinimizationError}
use melibea.Protocol.Message.{Window, window_of}
use melibea.Niri
use melibea.Niri.{
  NiriEvent, NiriAdapter, NiriAdapterError, windows_changed, minimized_windows_changed,
  window_closed,
}

-- The state that the controller's loop keeps for one connection.
pub record Controller : Type 0 where
  pub adapter : NiriAdapter
  pub pending : PendingResizes
  pub minimized : MinimizedRegistry

pub data ControllerError : Type 0 where
  stream_closed : ControllerError
  stream_failed : String → ControllerError
  cannot_apply_minimized : MinimizationError → ControllerError
  cannot_apply : NiriAdapterError → ControllerError
  service_stopped : ControllerError

-- The state after a message, the snapshots that went to the service, and what is returned.
pub record Ingested : Type 0 where
  pub state : Controller
  pub published : List (List Window)
  pub result : Result ControllerError (Unit {0})

-- `Service::publish_snapshot` sends the registry's windows.
abbrev pub published_windows : MinimizedRegistry → List Window
published_windows r = map window_of r.windows

-- The first part, for the minimized windows. `none` is a panic.
unfoldable pub mirror_minimized : Bool → Controller → NiriEvent → Option Ingested
mirror_minimized takes c (minimized_windows_changed windows) =
    elim (Minimization.apply c.minimized (Minimization.snapshot windows)) [
      | none ↦ none
      | some (next, err e) ↦ some (record {
        state = record c { minimized = next };
        published = [];
        result = err (cannot_apply_minimized e);
      })
      | some (next, ok change) ↦ some (record {
        state = record c { minimized = next };
        published = published_windows next ∷ [];
        result = if takes then ok tt else err service_stopped;
      })
    ]
mirror_minimized takes c _ = some (record { state = c; published = []; result = ok tt })

-- What an event does to the queue before its transition is taken in.
unfoldable pub prepare_queue : NiriEvent → PendingResizes → PendingResizes
prepare_queue (windows_changed windows) p = reset p
prepare_queue (window_closed id) p = forget_window p id
prepare_queue _ p = p

unfoldable pub ingest_optional : PendingResizes → Option FocusTransition → PendingResizes
ingest_optional p none = p
ingest_optional p (some transition) = ingest p transition

-- The second part, for the adapter and the queue.
unfoldable pub advance_adapter : Ingested → NiriEvent → Ingested
unfolding prepare_queue ingest_optional
advance_adapter i e =
    let out = Niri.apply i.state.adapter e in
    elim out.1 [
      | err x ↦ record i {
        state = record i.state { adapter = out.0 };
        result = err (cannot_apply x);
      }
      | ok transition ↦ record i {
        state = record i.state {
          adapter = out.0;
          pending = ingest_optional (prepare_queue e i.state.pending) transition;
        };
      }
    ]

abbrev pub stays : Controller → ControllerError → Ingested
stays c e = record { state = c; published = []; result = err e }

-- The `?` between the two parts.
unfoldable pub go_on : Result ControllerError (Unit {0}) → Ingested → NiriEvent → Ingested
go_on (err x) i e = i
go_on (ok _) i e = advance_adapter i e

unfoldable pub ingest_event : Bool → Controller → NiriEvent → Option Ingested
ingest_event takes c e = elim (mirror_minimized takes c e) [
  | none ↦ none
  | some i ↦ some (go_on i.result i e)
]

-- `ingest_stream_message`
unfoldable pub ingest_stream_message :
    Bool → Controller → Result String (Option NiriEvent) → Option Ingested
unfolding ingest_event
ingest_stream_message takes c (ok (some event)) = ingest_event takes c event
ingest_stream_message takes c (ok none) = some (stays c stream_closed)
ingest_stream_message takes c (err reason) = some (stays c (stream_failed reason))
