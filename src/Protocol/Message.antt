-- ===== src/Protocol/Message.antt =====
-- What the daemon sends (protocol.rs): windows, changes, results and errors.
use melibea.Base.{
  ℕ, ◌≡◌, ◌↔◌, Bool, true, ◌&&◌, String, List, [], ◌∷◌, Option, none, ◌==◌, Eq, ◌=?◌, string_eq,
  option_eq, option_beq_iff, arith,
}
use melibea.Minimization.{MinimizedWindow}
use melibea.Protocol.Anchor.{BubbleAnchorError}

abbrev pub protocol_version : ℕ
protocol_version = 1

abbrev pub protocol_version_v2 : ℕ
protocol_version_v2 = 2

abbrev pub supported_protocol_versions : List ℕ
supported_protocol_versions = protocol_version ∷ protocol_version_v2 ∷ []

pub record Window : Type 0 where
  pub id : ℕ
  pub app_id : Option String
  pub title : Option String
  pub icon_name : Option String

abbrev pub window_id : Window → ℕ
window_id w = w.id

-- `From<&MinimizedWindow> for Window`
unfoldable pub window_of : MinimizedWindow → Window
window_of w = record { id = w.id; app_id = w.app_id; title = w.title; icon_name = none }

-- The derived `PartialEq`.
abbrev pub window_beq : Window → Window → Bool
window_beq a b =
    a.id == b.id && (a.app_id =? b.app_id && (a.title =? b.title && a.icon_name =? b.icon_name))

pub window_beq_iff : (a b : Window) → (window_beq a b ≡ true) ↔ (a ≡ b)
window_beq_iff a b = ground (
  arith,
  option_beq_iff a.app_id b.app_id,
  option_beq_iff a.title b.title,
  option_beq_iff a.icon_name b.icon_name,
)

instance abbrev pub window_eq : Eq Window
window_eq = record { beq = window_beq; beq_iff = window_beq_iff }

-- The index stands before the window or its id; `moved` has the id, then both indices.
pub data WindowChange : Type 0 where
  added : ℕ → Window → WindowChange
  updated : ℕ → Window → WindowChange
  moved : ℕ → ℕ → ℕ → WindowChange
  removed : ℕ → ℕ → WindowChange

pub data Operation : Type 0 where
  minimize restore close : Operation

pub data ActionStatus : Type 0 where
  applied already_in_requested_state close_requested window_not_found blocked legacy_handled :
      ActionStatus

pub record ActionResult : Type 0 where
  pub operation : Operation
  pub requested_id : Option ℕ
  pub window_id : Option ℕ
  pub status : ActionStatus

pub data ErrorCode : Type 0 where
  incompatible_version invalid_request unavailable action_failed : ErrorCode

-- What the text of an error is made from.
pub data ErrorText : Type 0 where
  unsupported_version : ℕ → ErrorText
  transition_requires_v2 : ErrorText
  invalid_transition : BubbleAnchorError → ErrorText
  unreadable_request : String → ErrorText
  not_one_line : ErrorText
  invalid_json : String → ErrorText
  plain : String → ErrorText

pub record ProtocolError : Type 0 where
  pub code : ErrorCode
  pub message : ErrorText
  pub supported_versions : List ℕ

-- `ProtocolError::incompatible`
abbrev pub incompatible_error : ℕ → ProtocolError
incompatible_error requested = record {
  code = incompatible_version;
  message = unsupported_version requested;
  supported_versions = supported_protocol_versions;
}

-- `ProtocolError::invalid_request`
abbrev pub invalid_request_error : ErrorText → ProtocolError
invalid_request_error message = record {
  code = invalid_request;
  message = message;
  supported_versions = [];
}

-- `ProtocolError::unavailable`
abbrev pub unavailable_error : String → ProtocolError
unavailable_error message = record {
  code = unavailable;
  message = plain message;
  supported_versions = [];
}

-- `ProtocolError::action_failed`
abbrev pub action_failed_error : String → ProtocolError
action_failed_error message = record {
  code = action_failed;
  message = plain message;
  supported_versions = [];
}

pub data Message : Type 0 where
  snapshot : ℕ → List Window → Message
  changes : ℕ → List WindowChange → Message
  action_result : ActionResult → Message
  unavailable : ℕ → String → Message
  error : ProtocolError → Message

pub record ServerMessage : Type 0 where
  pub version : ℕ
  pub message : Message

-- `ServerMessage::new`
abbrev pub v1_message : Message → ServerMessage
v1_message message = record { version = protocol_version; message = message }

-- `ServerMessage::for_version`
abbrev pub for_version : ℕ → Message → ServerMessage
for_version version message = record { version = version; message = message }
