-- ===== src/Service/Broker.antt =====
-- The broker of service.rs: one thread owns the published windows and the subscribers, and takes
-- one message after another. A stream is a number. What the operating system and the compositor
-- answer while a message is handled is an argument, and what the broker does to the outside is a
-- list of effects in order.
pub mod Mirror
pub mod Broadcast
pub mod Asked
pub mod Runs
pub mod Readers
pub mod Versions
pub mod Kept
pub mod Delivery
pub mod Steps
pub mod Follows
pub mod Session
use melibea.Base.{
  ℕ, zero, suc, ◌≡◌, Bool, true, false, not, ◌&&◌, ◌||◌, String, List, [], ◌∷◌, ◌++◌, Option, none,
  some, Result, ok, err, if◌then◌else◌, ◌==◌, ◌=?◌, string_eq, list_eq, saturating_suc, filter,
}
use melibea.Protocol.Message.{
  Window, window_eq, Message, snapshot, changes, action_result, unavailable, error, ServerMessage,
  for_version, ActionResult, unavailable_error, action_failed_error,
}
use melibea.Protocol.Request.{Request, list, subscribe}
use melibea.Protocol.Diff.{diff_windows}

pub data ReadResult : Type 0 where
  bytes : ℕ → ReadResult
  would_block interrupted failed : ReadResult

-- The answers while one message is handled: whether a message is written out to a stream, whether
-- a stream can be cloned or takes a blocking mode, what a read of it gives, and what the
-- `ActionExecutor` returns.
pub record Io : Type 0 where
  pub writes : ℕ → Bool
  pub clones : ℕ → Bool
  pub set_nonblocking : ℕ → Bool → Bool
  pub read : ℕ → ReadResult
  pub execute : Request → Result String ActionResult

pub record Subscriber : Type 0 where
  pub version : ℕ
  pub stream : ℕ

abbrev pub stream_of : Subscriber → ℕ
stream_of s = s.stream

pub record BrokerState : Type 0 where
  pub revision : ℕ
  pub ready : Bool
  pub unavailable_reason : String
  pub windows : List Window
  pub subscribers : List Subscriber

-- `BrokerState::default`
abbrev pub new_state : BrokerState
new_state = record {
  revision = 0;
  ready = false;
  unavailable_reason = "awaiting authoritative niri snapshot";
  windows = [];
  subscribers = [];
}

-- The acknowledgement of a synchronized message has a number.
pub data BrokerMessage : Type 0 where
  publish_windows : List Window → ℕ → BrokerMessage
  become_unavailable : String → ℕ → BrokerMessage
  client : ℕ → Request → ℕ → BrokerMessage
  shutdown : BrokerMessage

pub data Effect : Type 0 where
  sent : ℕ → ServerMessage → Effect
  executed : Request → Effect
  acknowledged : ℕ → Effect

-- `write_message` to one stream: nothing arrives if it fails.
abbrev pub write_message : Io → ℕ → ServerMessage → List Effect
write_message io stream message = if io.writes stream then sent stream message ∷ [] else []

-- `retain_mut` in `broadcast`.
unfoldable pub broadcast_to : Io → Message → List Subscriber → List Subscriber × List Effect
broadcast_to io message [] = ([], [])
broadcast_to io message (s ∷ ss) =
    let rest = broadcast_to io message ss in
    if io.writes s.stream
    then (s ∷ rest.0, sent s.stream (for_version s.version message) ∷ rest.1)
    else rest

abbrev pub broadcast : Io → BrokerState → Message → BrokerState × List Effect
broadcast io s message =
    let out = broadcast_to io message s.subscribers in (record s { subscribers = out.0 }, out.1)

unfoldable pub read_departed : ReadResult → Bool
read_departed (bytes zero) = true
read_departed (bytes (suc n)) = false
read_departed would_block = false
read_departed interrupted = false
read_departed failed = true

unfoldable pub subscriber_departed : Io → ℕ → Bool
unfolding read_departed
subscriber_departed io stream =
    if not (io.set_nonblocking stream true)
    then true
    else if not (io.set_nonblocking stream false)
    then true
    else read_departed (io.read stream)

unfoldable pub sweep_departed : Io → List Subscriber → List Subscriber
unfolding subscriber_departed
sweep_departed io ss = filter (λ s. not (subscriber_departed io s.stream)) ss

abbrev pub snapshot_message : BrokerState → Message
snapshot_message s = snapshot s.revision s.windows

-- The state that `publish` leaves before it broadcasts.
abbrev pub published : BrokerState → List Window → BrokerState
published s windows = record {
  revision = saturating_suc s.revision;
  ready = true;
  unavailable_reason = "";
  windows = windows;
  subscribers = s.subscribers;
}

-- What `publish` broadcasts. `none` is a panic in `diff_windows`.
unfoldable pub publication : BrokerState → List Window → Option Message
publication s windows = elim s.ready [
  | false ↦ some (snapshot_message (published s windows))
  | true ↦ elim (diff_windows s.windows windows) [
    | none ↦ none
    | some made ↦ some (changes (saturating_suc s.revision) made)
  ]
]

unfoldable pub publish : Io → BrokerState → List Window → Option (BrokerState × List Effect)
unfolding publication
publish io s windows =
    if s.ready && s.windows =? windows then some (s, []) else elim (publication s windows) [
      | none ↦ none
      | some message ↦ some (broadcast io (published s windows) message)
    ]

unfoldable pub set_unavailable : Io → BrokerState → String → BrokerState × List Effect
set_unavailable io s reason =
    if not s.ready && s.unavailable_reason =? reason
    then (s, [])
    else broadcast io (record s { ready = false; unavailable_reason = reason })
        (unavailable s.revision reason)

-- The first message of a subscription.
abbrev pub subscription_message : BrokerState → Message
subscription_message s =
    if s.ready then snapshot_message s else unavailable s.revision s.unavailable_reason

unfoldable pub add_subscriber : Io → BrokerState → ℕ → ℕ → BrokerState × List Effect
unfolding sweep_departed
add_subscriber io s version stream =
    let reply = write_message io stream (for_version version (subscription_message s)) in
    if io.writes stream && io.clones stream
    then (
      record s {
        subscribers =
            sweep_departed io s.subscribers ++ record { version = version; stream = stream } ∷ [];
      },
      reply,
    )
    else (s, reply)

abbrev pub list_message : BrokerState → Message
list_message s =
    if s.ready then snapshot_message s else error (unavailable_error s.unavailable_reason)

abbrev pub action_message : Result String ActionResult → Message
action_message (ok result) = action_result result
action_message (err reason) = error (action_failed_error reason)

unfoldable pub handle_client : Io → BrokerState → ℕ → Request → ℕ → BrokerState × List Effect
unfolding add_subscriber
handle_client io s version list stream =
    (s, write_message io stream (for_version version (list_message s)))
handle_client io s version subscribe stream = add_subscriber io s version stream
handle_client io s version action stream = (
  s,
  executed action
      ∷ write_message io stream (for_version version (action_message (io.execute action))),
)

-- One message other than `shutdown`, which is the end.
unfoldable pub handle : Io → BrokerState → BrokerMessage → Option (BrokerState × List Effect)
unfolding publish set_unavailable handle_client
handle io s (publish_windows windows ack) = elim (publish io s windows) [
  | none ↦ none
  | some (next, effects) ↦ some (next, effects ++ acknowledged ack ∷ [])
]
handle io s (become_unavailable reason ack) =
    let out = set_unavailable io s reason in some (out.0, out.1 ++ acknowledged ack ∷ [])
handle io s (client version request stream) = some (handle_client io s version request stream)
handle io s shutdown = some (s, [])

-- `broker_loop` over the messages that arrive; the channel closes after the last.
unfoldable pub broker_loop :
    List (Io × BrokerMessage) → BrokerState → Option (BrokerState × List Effect)
broker_loop [] s = some (s, [])
broker_loop ((io, shutdown) ∷ later) s = some (s, [])
broker_loop ((io, message) ∷ later) s = elim (handle io s message) [
  | none ↦ none
  | some (next, effects) ↦ elim (broker_loop later next) [
    | none ↦ none
    | some (last, more) ↦ some (last, effects ++ more)
  ]
]
