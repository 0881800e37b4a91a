-- ===== src/Controller/Daemon.antt =====
-- main.rs: `run_controller_inner`, the daemon: it loads the configuration, takes its socket and connects
-- to niri again and again.
use melibea.Base.{
  ℕ, Bool, true, false, String, List, [], ◌∷◌, ◌++◌, Option, none, some, Result, ok, err, map,
  map_err, ◌>>=◌,
}
use melibea.Config.{Config, Platform}
use melibea.Config.Load.{Host, non_empty_env, ConfiguredError, configured}
use melibea.Executor.{ResizeAction}
use melibea.NiriIpc.{niri_socket_env}
use melibea.NiriIpc.Action.{Codec}
use melibea.Protocol.Message.{Window}
use melibea.Service.Socket.{SocketPathError, ServiceError, SocketIo, socket_path, start_service}
use melibea.Controller.Watcher.{ConfigWatcher, new_watcher}
use melibea.Controller.Run.{ConnectionError, Ran}
use melibea.Controller.Connection.{ConnectionEnd, Attempt, run_controller_connection}

-- Why the windows are not available; the text has the error's.
pub data Reason : Type 0 where
  reloading : Reason
  connection_lost : ConnectionError → Reason

-- What the daemon calls of its service.
pub data ServiceCall : Type 0 where
  publishes : List Window → ServiceCall
  withdraws : Reason → ServiceCall

-- One connection, and whether the service takes what is said at its end.
pub record Session : Type 0 where
  pub attempt : Attempt
  pub takes : Bool

-- What the daemon has called and asked niri for, the configuration in force, and whether the service
-- had stopped, which ends the daemon; otherwise it is still going.
pub record Life : Type 0 where
  pub calls : List ServiceCall
  pub widths : List ResizeAction
  pub config : Config
  pub stopped : Bool

abbrev pub after_life : List ServiceCall → List ResizeAction → Option Life → Option Life
after_life calls widths none = none
after_life calls widths (some l) =
    some (record l { calls = calls ++ l.calls; widths = widths ++ l.widths })

-- After a connection that ended for a reason: `set_unavailable`, then the next connection.
unfoldable pub withdraw_and :
    Ran ConnectionEnd
    → Bool
    → Reason
    → Config
    → (Config → ConfigWatcher → Option Life)
    → Option Life
withdraw_and r takes reason config next =
    let calls = map publishes r.published ++ withdraws reason ∷ [] in
    elim takes [
      | true ↦ after_life calls r.widths (next config r.ending.watcher)
      | false ↦ some (record { calls = calls; widths = r.widths; config = config; stopped = true })
    ]

-- The `match` on what the connection returned.
unfoldable pub after_session :
    Ran ConnectionEnd → Bool → Config → (Config → ConfigWatcher → Option Life) → Option Life
unfolding withdraw_and
after_session r takes config next = elim r.ending.returned [
  | none ↦ some (record {
    calls = map publishes r.published;
    widths = r.widths;
    config = config;
    stopped = false;
  })
  | some (ok reloaded) ↦ withdraw_and r takes reloading reloaded next
  | some (err e) ↦ withdraw_and r takes (connection_lost e) config next
]

pub data DaemonError : Type 0 where
  not_configured : ConfiguredError → DaemonError
  no_niri_socket : DaemonError
  no_socket_path : SocketPathError → DaemonError
  no_service : ServiceError → DaemonError

-- The test of `NIRI_SOCKET`.
abbrev pub niri_socket_set : Option String → Result DaemonError (Unit {0})
niri_socket_set none = err no_niri_socket
niri_socket_set (some path) = ok tt

module _ (p : Platform) (codec : Codec) where
  -- The loop over the connections.
  unfoldable pub serve : List Session → Config → ConfigWatcher → Option Life
  unfolding after_session
  serve [] config w = some (record { calls = []; widths = []; config = config; stopped = false })
  serve (s ∷ sessions) config w = elim (run_controller_connection p codec s.attempt config w) [
    | none ↦ none
    | some r ↦ after_session r s.takes config (serve sessions)
  ]

  -- `run_controller_inner`, with the time at which the watcher is made.
  unfoldable pub run_controller_inner :
      Host → SocketIo → ℕ → List Session → Option String → Result DaemonError (Option Life)
  run_controller_inner h io now sessions given = do
    loaded ← map_err not_configured (configured p h given)
    _ ← niri_socket_set (non_empty_env h niri_socket_env)
    path ← map_err no_socket_path (socket_path h)
    _ ← map_err no_service (start_service path io).result
    ok (serve sessions loaded.config (new_watcher loaded.path loaded.source now))
