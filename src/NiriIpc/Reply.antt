-- ===== src/NiriIpc/Reply.antt =====
-- niri_ipc.rs: how niri's reply to a request is read, on the event stream and after an action.
use melibea.Base.{
  ◌≡◌, refl, ◌⊎◌, inl, inr, ◌&&◌, String, [], ◌∷◌, Result, ok, err, map_err, ◌>>=◌, if◌then◌else◌,
  ◌=?◌, string_eq, Bool-cases, Result-cases,
}
use melibea.Base.Text.{◌<>◌}
use melibea.Base.Json.{Json, View, object, string, other}
use melibea.Niri.Parse.{NiriEventError, event_error_text}
use melibea.NiriIpc.{niri_socket_env, ActionReply, handled, window, NiriWindowActionResult}

pub data NiriIpcError : Type 0 where
  missing_socket_environment : NiriIpcError
  connect : String → String → NiriIpcError
  write_request read_handshake : String → NiriIpcError
  closed_during_handshake : NiriIpcError
  invalid_handshake : String → NiriIpcError
  unexpected_handshake : NiriIpcError
  request_rejected shutdown_write read_event : String → NiriIpcError
  invalid_event : NiriEventError → NiriIpcError

-- Its `Display`
unfoldable pub ipc_error_text : NiriIpcError → String
unfolding event_error_text
ipc_error_text missing_socket_environment =
    niri_socket_env <> " is not set; run Melibea inside a niri session"
ipc_error_text (connect path source) = "cannot connect to niri socket " <> path <> ": " <> source
ipc_error_text (write_request error) = "cannot request niri events: " <> error
ipc_error_text (read_handshake error) = "cannot read niri event-stream reply: " <> error
ipc_error_text closed_during_handshake = "niri closed IPC before accepting the event stream"
ipc_error_text (invalid_handshake error) = "invalid niri event-stream reply: " <> error
ipc_error_text unexpected_handshake = "niri returned an unexpected event-stream reply"
ipc_error_text (request_rejected message) = "niri rejected the event stream: " <> message
ipc_error_text (shutdown_write error) = "cannot finalize niri event-stream request: " <> error
ipc_error_text (read_event error) = "cannot read niri event: " <> error
ipc_error_text (invalid_event error) = "cannot decode niri event: " <> event_error_text error

pub data NiriActionError : Type 0 where
  missing_socket_environment : NiriActionError
  connect : String → String → NiriActionError
  serialize write_request read_reply : String → NiriActionError
  closed_before_reply : NiriActionError
  invalid_reply : String → NiriActionError
  unexpected_reply : NiriActionError
  request_rejected : String → NiriActionError

-- Its `Display`
unfoldable pub action_error_text : NiriActionError → String
action_error_text missing_socket_environment =
    niri_socket_env <> " is not set; run Melibea inside a niri session"
action_error_text (connect path source) =
    "cannot connect to niri action socket " <> path <> ": " <> source
action_error_text (serialize error) = "cannot encode niri action: " <> error
action_error_text (write_request error) = "cannot send niri action: " <> error
action_error_text (read_reply error) = "cannot read niri action reply: " <> error
action_error_text closed_before_reply = "niri closed IPC before replying to the action"
action_error_text (invalid_reply error) = "invalid niri action reply: " <> error
action_error_text unexpected_reply = "niri returned an unexpected action reply"
action_error_text (request_rejected message) = "niri rejected the action: " <> message

module _ (j : Json) where
  -- The `match` on the entry of a handshake.
  unfoldable pub handshake_entry : String → View j.Value → Result NiriIpcError (Unit {0})
  handshake_entry name (string response) =
      if name =? "Ok" && response =? "Handled"
      then ok tt
      else if name =? "Err"
      then err (request_rejected response)
      else err unexpected_handshake
  handshake_entry name _ = err unexpected_handshake

  unfoldable pub handshake_envelope : View j.Value → Result NiriIpcError (Unit {0})
  unfolding handshake_entry
  handshake_envelope (object ((name, response) ∷ [])) = handshake_entry name (j.view response)
  handshake_envelope _ = err unexpected_handshake

  unfoldable pub validate_handshake : String → Result NiriIpcError (Unit {0})
  validate_handshake line =
      map_err invalid_handshake (j.from_str line) >>= λ reply. handshake_envelope (j.view reply)

  module _ (window_action_result : j.Value → Result String NiriWindowActionResult) where
    -- The `match` on the entry of an action's reply.
    unfoldable pub reply_entry : String → View j.Value → Result NiriActionError ActionReply
    reply_entry name (string response) =
        if name =? "Ok" && response =? "Handled"
        then ok handled
        else if name =? "Err"
        then err (request_rejected response)
        else err unexpected_reply
    reply_entry name (object ((key, result) ∷ [])) =
        if name =? "Ok" && key =? "WindowActionResult"
        then (map_err (λ _. unexpected_reply) (window_action_result result) >>= λ result.
            ok (window result))
        else err unexpected_reply
    reply_entry name _ = err unexpected_reply

    unfoldable pub reply_envelope : View j.Value → Result NiriActionError ActionReply
    unfolding reply_entry
    reply_envelope (object ((name, response) ∷ [])) = reply_entry name (j.view response)
    reply_envelope _ = err unexpected_reply

    unfoldable pub validate_action_reply : String → Result NiriActionError ActionReply
    validate_action_reply line =
        map_err invalid_reply (j.from_str line) >>= λ reply. reply_envelope (j.view reply)

    -- The same reading of a reply, on the event stream and after an action.
    abbrev pub SameReading :
        Result NiriIpcError (Unit {0}) → Result NiriActionError ActionReply → Type 0
    SameReading (ok u) r = r ≡ ok handled
    SameReading (err (invalid_handshake error)) r = r ≡ err (invalid_reply error)
    SameReading (err (request_rejected message)) r = r ≡ err (request_rejected message)
    SameReading (err unexpected_handshake) r =
        (r ≡ err unexpected_reply) ⊎ ((result : NiriWindowActionResult) × (r ≡ ok (window result)))
    SameReading (err _) r = ⊥

    entry-SameReading :
        (name : String) (response : View j.Value)
        → SameReading (handshake_entry name response) (reply_entry name response)
    unfolding handshake_entry reply_entry
    entry-SameReading name other = inl refl
    entry-SameReading name (object []) = inl refl
    entry-SameReading name (object (a ∷ b ∷ rest)) = inl refl
    entry-SameReading name (string response) =
        elim (Bool-cases (name =? "Ok" && response =? "Handled")) [
          | inl accepted ↦ rw accepted refl
          | inr declined ↦ elim (Bool-cases (name =? "Err")) [
            | inl rejected ↦ rw (declined, rejected) refl
            | inr unknown ↦ rw (declined, unknown) (inl refl)
          ]
        ]
    entry-SameReading name (object ((key, result) ∷ [])) =
        elim (Bool-cases (name =? "Ok" && key =? "WindowActionResult")) [
          | inr foreign ↦ rw foreign (inl refl)
          | inl result_of ↦ elim (Result-cases (window_action_result result)) [
            | inl (r, e) ↦ rw (result_of, e) (inr (r, refl))
            | inr (reason, e) ↦ rw (result_of, e) (inl refl)
          ]
        ]

    envelope-SameReading :
        (reply : View j.Value) → SameReading (handshake_envelope reply) (reply_envelope reply)
    unfolding handshake_envelope reply_envelope
    envelope-SameReading (object []) = inl refl
    envelope-SameReading (object ((name, response) ∷ [])) = entry-SameReading name (j.view response)
    envelope-SameReading (object (a ∷ b ∷ rest)) = inl refl
    envelope-SameReading (string text) = inl refl
    envelope-SameReading other = inl refl

    -- The handshake of the event stream and the reply to an action read a line alike: both take it as
    -- handled, both as rejected with the same message, both as no JSON with the same reason, or the
    -- handshake finds it unexpected, and then so does the action unless it is the result of one.
    pub validate_handshake-SameReading :
        (line : String) → SameReading (validate_handshake line) (validate_action_reply line)
    unfolding validate_handshake validate_action_reply
    validate_handshake-SameReading line = elim (Result-cases (j.from_str line)) [
      | inr (reason, e) ↦ rw e refl
      | inl (reply, e) ↦ rw e (envelope-SameReading (j.view reply))
    ]
