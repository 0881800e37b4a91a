-- ===== src/NiriIpc/Action.antt =====
-- niri_ipc.rs: `NiriActionClient`, which sends one action at a time and waits for its reply.
use melibea.Base.{
  ℕ, String, Option, none, some, Result, ok, err, map_err, ◌>>=◌, ◌>>◌, if◌then◌else◌,
}
use melibea.Base.Float.{F64, Arithmetic, hundred_f64}
use melibea.Base.Text.{◌<>◌, text_is_empty}
use melibea.Base.Json.{Json}
use melibea.Attention.{Proportion}
use melibea.Protocol.Anchor.{WindowTransition}
use melibea.Transition.{WindowId}
use melibea.NiriIpc.{
  Transport, Environment, ActionReply, handled, window, NiriWindowActionResult, legacy_handled,
}
use melibea.NiriIpc.Reply.{
  NiriActionError, missing_socket_environment, connect, serialize, write_request, read_reply,
  closed_before_reply, validate_action_reply,
}

pub data SizeChange : Type 0 where
  set_proportion : F64 → SizeChange

pub data NiriAction : Type 0 where
  set_window_width : Option ℕ → SizeChange → NiriAction
  close_window : Option ℕ → NiriAction
  minimize_window : Option ℕ → Option WindowTransition → NiriAction
  restore_window : ℕ → Option WindowTransition → NiriAction

pub data ActionRequest : Type 0 where
  action : NiriAction → ActionRequest

-- What serde_json does for the client.
pub record Codec : Type 1 where
  pub json : Json
  pub to_string : ActionRequest → Result String String
  pub window_action_result : json.Value → Result String NiriWindowActionResult

-- `NiriActionClient::connect_to`
unfoldable pub connect_to : Environment → String → Result NiriActionError Transport
connect_to env path = map_err (connect path) (env.connect path)

-- `NiriActionClient::connect`
unfoldable pub connect_actions : Environment → Result NiriActionError Transport
unfolding connect_to
connect_actions env = elim env.socket [
  | none ↦ err missing_socket_environment
  | some path ↦ connect_to env path
]

module _ (c : Codec) where
  -- The request of an action on its line.
  abbrev request_line : NiriAction → Result NiriActionError String
  request_line a = map_err serialize (c.to_string (action a)) >>= λ line. ok (line <> "\n")

  -- From the reply of `read_line` on.
  unfoldable pub finish_action : String → Result NiriActionError ActionReply
  finish_action line =
      if text_is_empty line
      then err closed_before_reply
      else validate_action_reply c.json c.window_action_result line

  unfoldable pub send_action : Transport → NiriAction → Result NiriActionError ActionReply
  unfolding finish_action
  send_action t a = request_line a >>= λ line.
      map_err write_request (t.write_all line)
      >> map_err write_request t.flush
      >> (map_err read_reply t.read_line >>= finish_action)

  unfoldable pub window_result : Option ℕ → ActionReply → NiriWindowActionResult
  window_result requested_id handled = record {
    requested_id = requested_id;
    window_id = requested_id;
    status = legacy_handled;
  }
  window_result requested_id (window result) = result

  unfoldable pub send_window_action :
      Transport → NiriAction → Option ℕ → Result NiriActionError NiriWindowActionResult
  unfolding send_action window_result
  send_window_action t a requested_id =
      send_action t a >>= λ reply. ok (window_result requested_id reply)

  -- `set_window_width`: niri takes percentages.
  unfoldable pub send_width :
      Arithmetic → Transport → WindowId → Proportion → Result NiriActionError (Unit {0})
  unfolding send_action
  send_width a t window_id width =
      send_action t
        (set_window_width (some window_id) (set_proportion (a.mul width.value hundred_f64)))
      >>= λ _. ok tt

  unfoldable pub minimize_window_with_transition :
      Transport
      → Option WindowId
      → Option WindowTransition
      → Result NiriActionError NiriWindowActionResult
  unfolding send_window_action
  minimize_window_with_transition t window_id transition =
      send_window_action t (minimize_window window_id transition) window_id

  -- `NiriActionClient::minimize_window`
  unfoldable pub minimize_plain :
      Transport → Option WindowId → Result NiriActionError NiriWindowActionResult
  minimize_plain t window_id = minimize_window_with_transition t window_id none

  unfoldable pub restore_window_with_transition :
      Transport → WindowId → Option WindowTransition → Result NiriActionError NiriWindowActionResult
  unfolding send_window_action
  restore_window_with_transition t window_id transition =
      send_window_action t (restore_window window_id transition) (some window_id)

  -- `NiriActionClient::restore_window`
  unfoldable pub restore_plain :
      Transport → WindowId → Result NiriActionError NiriWindowActionResult
  restore_plain t window_id = restore_window_with_transition t window_id none

  -- `NiriActionClient::close_window`
  unfoldable pub send_close : Transport → WindowId → Result NiriActionError NiriWindowActionResult
  unfolding send_window_action
  send_close t window_id = send_window_action t (close_window (some window_id)) (some window_id)
