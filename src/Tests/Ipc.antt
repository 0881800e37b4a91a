-- ===== src/Tests/Ipc.antt =====
-- niri.rs and niri_ipc.rs: lines of niri, over a reader of a few JSON texts.
use melibea.Base.{ℕ, true, false, String, [], ◌∷◌, some, Result, ok, err, ◌=?◌, string_eq}
use melibea.Base.Json.{Json, View, object, string, other}
use melibea.Niri.Parse.{Payloads, Parses, parse_event_line-Parses}
use melibea.NiriIpc.{Transport, Environment}
use melibea.NiriIpc.Reply.{
  SameReading, validate_handshake, validate_action_reply, validate_handshake-SameReading,
}
use melibea.NiriIpc.Action.{Codec}
use melibea.Protocol.Message
use melibea.Protocol.Message.{ActionResult, legacy_handled}

pub data Sample : Type 0 where
  text : String → Sample
  entry : String → Sample → Sample
  id : ℕ → Sample

abbrev view_sample : Sample → View Sample
view_sample (text s) = string s
view_sample (entry name value) = object ((name, value) ∷ [])
view_sample (id n) = other

abbrev read_sample : String → Result String Sample
read_sample s = elim (s =? "{\"Ok\":\"Handled\"}\n") [
  | true ↦ ok (entry "Ok" (text "Handled"))
  | false ↦ elim (s =? "{\"WindowClosed\":{\"id\":4}}\n") [
    | true ↦ ok (entry "WindowClosed" (id 4))
    | false ↦ err "expected value"
  ]
]

abbrev pub json : Json
json = record { Value = Sample; view = view_sample; from_str = read_sample }

abbrev refuse {ℓ} : {A : Type ℓ} → Sample → Result String A
refuse v = err "missing field"

abbrev pub payloads : Payloads json
payloads = record {
  windows_changed_payload = refuse;
  minimized_windows_changed_payload = refuse;
  window_changed_payload = refuse;
  window_id_payload = λ v. elim v [
    | id n ↦ ok (record { id = n })
    | text s ↦ err "missing field"
    | entry name value ↦ err "missing field"
  ];
  optional_window_id_payload = refuse;
}

abbrev pub codec : Codec
codec = record { json = json; to_string = λ request. ok "{}"; window_action_result = refuse }

-- A connection on which niri takes every request.
abbrev pub transport : Transport
transport = record {
  write_all = λ line. ok tt;
  flush = ok tt;
  read_line = ok "{\"Ok\":\"Handled\"}\n";
  shutdown_write = ok tt;
}

abbrev pub environment : Environment
environment = record { socket = some "/run/niri"; connect = λ path. ok transport }

parse_event_line-Parses_example : Parses json payloads "{\"WindowClosed\":{\"id\":4}}\n"
parse_event_line-Parses_example =
    parse_event_line-Parses json payloads "{\"WindowClosed\":{\"id\":4}}\n"

validate_handshake-SameReading_example :
    SameReading json refuse
      (validate_handshake json "{\"Ok\":\"Handled\"}\n")
      (validate_action_reply json refuse "{\"Ok\":\"Handled\"}\n")
validate_handshake-SameReading_example =
    validate_handshake-SameReading json refuse "{\"Ok\":\"Handled\"}\n"

abbrev minimized : ActionResult
minimized = record {
  operation = Message.minimize;
  requested_id = some 4;
  window_id = some 4;
  status = legacy_handled;
}
