-- ===== src/Controller/Execute.antt =====
-- main.rs: the controller's `ActionExecutor`, which asks niri to carry out a client's request.
use melibea.Base.{ℕ, ◌≡◌, String, Option, some, Result, ok, err, map_err, ◌>>=◌}
use melibea.Protocol.Message
use melibea.Protocol.Message.{
  Operation, ActionStatus, ActionResult, applied, already_in_requested_state, close_requested,
  window_not_found, blocked, legacy_handled,
}
use melibea.Protocol.Request.{Request, list, subscribe, minimize, restore, close}
use melibea.NiriIpc
use melibea.NiriIpc.{
  Transport, Environment, ActionReply, NiriWindowActionStatus, NiriWindowActionResult,
}
use melibea.NiriIpc.Reply.{NiriActionError, action_error_text}
use melibea.NiriIpc.Action.{
  NiriAction, close_window, minimize_window, restore_window, Codec, connect_actions,
  minimize_window_with_transition, restore_window_with_transition, send_close,
}
use melibea.NiriIpc.Sent.{IsReplied}

unfoldable pub map_status : NiriWindowActionStatus → ActionStatus
map_status NiriIpc.applied = applied
map_status NiriIpc.already_in_requested_state = already_in_requested_state
map_status NiriIpc.close_requested = close_requested
map_status NiriIpc.window_not_found = window_not_found
map_status NiriIpc.blocked = blocked
map_status NiriIpc.legacy_handled = legacy_handled

unfoldable pub map_native_action_result : Operation → NiriWindowActionResult → ActionResult
unfolding map_status
map_native_action_result operation result = record {
  operation = operation;
  requested_id = result.requested_id;
  window_id = result.window_id;
  status = map_status result.status;
}

-- What follows the `match` on the request.
unfoldable pub finish_execution :
    Operation → Result NiriActionError NiriWindowActionResult → Result String ActionResult
unfolding map_native_action_result
finish_execution operation result =
    map_err action_error_text result >>= λ native. ok (map_native_action_result operation native)

module _ (c : Codec) where
  -- The `match` on the request, over a connection.
  unfoldable pub execute_on : Transport → Request → Result String ActionResult
  unfolding finish_execution
  execute_on t (minimize window_id transition) =
      finish_execution Message.minimize (minimize_window_with_transition c t window_id transition)
  execute_on t (restore window_id transition) =
      finish_execution Message.restore (restore_window_with_transition c t window_id transition)
  execute_on t (close window_id) = finish_execution Message.close (send_close c t window_id)
  execute_on t list = err "request is not a compositor action"
  execute_on t subscribe = err "request is not a compositor action"

  unfoldable pub execute_protocol_action : Environment → Request → Result String ActionResult
  unfolding execute_on
  execute_protocol_action env request =
      map_err action_error_text (connect_actions env) >>= λ t. execute_on t request

-- What a request asks niri for: the operation, the action, and the window named in it.
pub data Asks : Request → Operation → NiriAction → Option ℕ → Type 0 where
  minimizes :
      (id : Option ℕ) → (t : _) → Asks (minimize id t) Message.minimize (minimize_window id t) id
  restores :
      (id : ℕ) → (t : _) → Asks (restore id t) Message.restore (restore_window id t) (some id)
  closes : (id : ℕ) → Asks (close id) Message.close (close_window (some id)) (some id)

-- What the client is told of niri's reply.
abbrev pub Reports : Operation → Option ℕ → ActionReply → ActionResult → Type 0
Reports operation id NiriIpc.handled result =
    result
    ≡ record { operation = operation; requested_id = id; window_id = id; status = legacy_handled }
Reports operation id (NiriIpc.window native) result = result ≡ record {
  operation = operation;
  requested_id = native.requested_id;
  window_id = native.window_id;
  status = map_status native.status;
}

module _ (c : Codec) where
  abbrev Told : Transport → Operation → NiriAction → Option ℕ → ActionResult → Type 0
  Told t operation a id result =
      (reply : ActionReply) × IsReplied c t a reply × Reports operation id reply result

  -- The request was carried out over the connection.
  abbrev pub IsExecuted : Transport → Request → ActionResult → Type 0
  IsExecuted t request result =
      (operation : Operation) × (a : NiriAction) × (id : Option ℕ) × Asks request operation a id
      × Told t operation a id result
