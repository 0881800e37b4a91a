-- ===== src/Cli/Exit.antt =====
-- main.rs: what the commands come to. Printing is left out; what is printed on success is the value.
use melibea.Base.{ℕ, String, List, length, Option, none, some, Result, ok, err, map_err, ◌>>=◌}
use melibea.Base.Json.{Json}
use melibea.Config.{Config, Platform}
use melibea.Config.Load.{Host, ConfiguredError, configured}
use melibea.Health.{HealthReport, HealthError, from_windows}
use melibea.Niri.{NiriWindow}
use melibea.NiriIpc.{Environment}
use melibea.NiriIpc.Reply.{NiriIpcError}
use melibea.NiriIpc.Stream.{connect_stream}
use melibea.Protocol.Message.{
  ServerMessage, Message, snapshot, action_result, ActionStatus, window_not_found, blocked,
}
use melibea.Protocol.Request.{Request, list}
use melibea.Service.Client.{ClientError, ClientIo, from_environment, request_v1}
use melibea.Cli.Status.{Read, SnapshotError, find_snapshot, initial_snapshot_event_limit}

pub data StatusError : Type 0 where
  not_configured : ConfiguredError → StatusError
  not_connected : NiriIpcError → StatusError
  no_timeout : String → StatusError
  no_windows : SnapshotError → StatusError
  unhealthy : HealthError → StatusError

-- What niri's side answers to `status`: the connection, the timeout that is set, and each read.
pub record StatusIo : Type 0 where
  pub environment : Environment
  pub set_read_timeout : Result String (Unit {0})
  pub reads : ℕ → Read

pub data ExitCode : Type 0 where
  success failure : ExitCode

-- The end of `service_action`.
unfoldable pub action_exit : ActionStatus → ExitCode
action_exit window_not_found = failure
action_exit blocked = failure
action_exit _ = success

-- `service_action` and `service_list` after the request.
unfoldable pub action_response_exit : Message → ExitCode
unfolding action_exit
action_response_exit (action_result result) = action_exit result.status
action_response_exit _ = failure

unfoldable pub list_response_exit : Message → ExitCode
list_response_exit (snapshot revision windows) = success
list_response_exit _ = failure

module _ (decode : String → Result String ServerMessage) where
  unfoldable pub service_request : Host → ClientIo → Request → Result ClientError ServerMessage
  service_request h io request = from_environment h >>= λ c. request_v1 decode c io request

  unfoldable pub service_action : Host → ClientIo → Request → ExitCode
  unfolding action_response_exit
  service_action h io request = elim (service_request h io request) [
    | ok message ↦ action_response_exit message.message
    | err e ↦ failure
  ]

  unfoldable pub service_list : Host → ClientIo → ExitCode
  unfolding list_response_exit
  service_list h io = elim (service_request h io list) [
    | ok message ↦ list_response_exit message.message
    | err e ↦ failure
  ]

module _ (p : Platform) (j : Json) where
  -- `status_inner` up to the report.
  unfoldable pub status_windows :
      Host → StatusIo → Option String → Result StatusError (Config × List NiriWindow)
  status_windows h io given = do
    loaded ← map_err not_configured (configured p h given)
    _ ← map_err not_connected (connect_stream j io.environment)
    _ ← map_err no_timeout io.set_read_timeout
    windows ← map_err no_windows (find_snapshot io.reads 0 initial_snapshot_event_limit)
    ok (loaded.config, windows)

  -- `none` is a panic of the report.
  unfoldable pub report_windows :
      Result StatusError (Config × List NiriWindow) → Option (Result StatusError HealthReport)
  report_windows (err e) = some (err e)
  report_windows (ok (config, windows)) = elim (from_windows config windows) [
    | none ↦ none
    | some report ↦ some (map_err unhealthy report)
  ]

  unfoldable pub status_inner :
      Host → StatusIo → Option String → Option (Result StatusError HealthReport)
  unfolding status_windows report_windows
  status_inner h io given = report_windows (status_windows h io given)

-- The number of rules that `check_config` prints.
unfoldable pub check_config : Platform → Host → Option String → Result ConfiguredError ℕ
check_config p h given = configured p h given >>= λ loaded. ok (length loaded.config.attention)
