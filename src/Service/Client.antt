-- ===== src/Service/Client.antt =====
-- service.rs: `ServiceClient` and `Subscription`, which talk to the daemon over one connection.
use Prim.Native.String.append
use melibea.Base.{
  ℕ, ◌≡◌, refl, ap, inl, inr, false, not, ◌&&◌, String, List, [], ◌∷◌, Result, ok, err, map_err,
  ◌>>=◌, ◌>>◌, if◌then◌else◌, ◌==◌, All, Bool-cases, arith,
}
use melibea.Base.Text.{◌<>◌, text_is_empty}
use melibea.Config.Load.{Host}
use melibea.Protocol.Message.{ServerMessage, Message, for_version}
use melibea.Protocol.Request.{
  Request, ClientRequest, v1_request, v2_request, list, subscribe, minimize, restore, close,
}
use melibea.Service.Socket.{SocketPathError, socket_path}
use melibea.Service.Broker.{
  Io, BrokerState, Effect, sent, executed, acknowledged, write_message, handle_client,
  subscription_message, list_message, action_message, add_subscriber,
}

pub data ClientError : Type 0 where
  no_socket_path : SocketPathError → ClientError
  connect : String → String → ClientError
  serialize write read : String → ClientError
  closed : ClientError
  invalid_reply : String → ClientError
  incompatible_server_version : ℕ → ClientError

pub record ServiceClient : Type 0 where
  pub path : String

-- `ServiceClient::from_environment`
unfoldable pub from_environment : Host → Result ClientError ServiceClient
from_environment h = map_err no_socket_path (socket_path h) >>= λ path. ok (record { path = path })

-- The answers on one connection: `write_json` is that of `serde_json::to_writer`.
pub record ClientIo : Type 0 where
  pub connect : String → Result String (Unit {0})
  pub write_json : ClientRequest → Result String (Unit {0})
  pub write_line_feed : Result String (Unit {0})
  pub flush : Result String (Unit {0})
  pub read_line : Result String String

pub record Subscription : Type 0 where
  pub expected_version : ℕ

-- A message that is sent has the version.
abbrev HasVersion : ℕ → Effect → Type 0
HasVersion version (sent stream m) = m.version ≡ version
HasVersion version _ = Unit {0}

written-HasVersion :
    (io : Io) (version stream : ℕ) (message : Message)
    → All (HasVersion version) (write_message io stream (for_version version message))
written-HasVersion io version stream message = elim (Bool-cases (io.writes stream)) [
  | inl out ↦ rw out (refl, tt)
  | inr lost ↦ rw lost tt
]

subscription-HasVersion :
    (io : Io) (s : BrokerState) (version stream : ℕ)
    → All (HasVersion version) (add_subscriber io s version stream).1
unfolding add_subscriber
subscription-HasVersion io s version stream =
    elim (Bool-cases (io.writes stream && io.clones stream)) [
      | inl taken ↦ rw taken (written-HasVersion io version stream (subscription_message s))
      | inr gone ↦ rw gone (written-HasVersion io version stream (subscription_message s))
    ]

handle_client-HasVersion :
    (io : Io) (s : BrokerState) (version : ℕ) (request : Request) (stream : ℕ)
    → All (HasVersion version) (handle_client io s version request stream).1
unfolding handle_client
handle_client-HasVersion io s version list stream =
    written-HasVersion io version stream (list_message s)
handle_client-HasVersion io s version subscribe stream = subscription-HasVersion io s version stream
handle_client-HasVersion io s version (minimize id t) stream =
    (tt, written-HasVersion io version stream (action_message (io.execute (minimize id t))))
handle_client-HasVersion io s version (restore id t) stream =
    (tt, written-HasVersion io version stream (action_message (io.execute (restore id t))))
handle_client-HasVersion io s version (close id) stream =
    (tt, written-HasVersion io version stream (action_message (io.execute (close id))))

ends_in_line_feed : (s : String) → text_is_empty (s <> "\n") ≡ false
ends_in_line_feed String.[] = refl
ends_in_line_feed (String.◌∷◌ c s) = ap text_is_empty (append.cons c s "\n")

module _ (decode : String → Result String ServerMessage) where
  abbrev of_version : ℕ → ServerMessage → Result ClientError ServerMessage
  of_version expected_version message =
      if not (message.version == expected_version)
      then err (incompatible_server_version message.version)
      else ok message

  unfoldable pub read_server_message : Result String String → ℕ → Result ClientError ServerMessage
  read_server_message input expected_version = map_err read input >>= λ line.
      if text_is_empty line
      then err closed
      else (map_err invalid_reply (decode line) >>= of_version expected_version)

  unfoldable pub start_request :
      ServiceClient → ClientIo → ClientRequest → Result ClientError (Unit {0})
  start_request c io request =
      map_err (connect c.path) (io.connect c.path)
      >> (map_err serialize (io.write_json request)
          >> (map_err write io.write_line_feed >> map_err write io.flush))

  unfoldable pub request_versioned :
      ServiceClient → ClientIo → ClientRequest → Result ClientError ServerMessage
  unfolding start_request read_server_message
  request_versioned c io request =
      start_request c io request >> read_server_message io.read_line request.version

  -- `ServiceClient::request`
  unfoldable pub request_v1 : ServiceClient → ClientIo → Request → Result ClientError ServerMessage
  request_v1 c io request = request_versioned c io (v1_request request)

  unfoldable pub request_v2 : ServiceClient → ClientIo → Request → Result ClientError ServerMessage
  request_v2 c io request = request_versioned c io (v2_request request)

  unfoldable pub subscribe_versioned :
      ServiceClient → ClientIo → ClientRequest → Result ClientError Subscription
  unfolding start_request
  subscribe_versioned c io request =
      start_request c io request >> ok (record { expected_version = request.version })

  -- `Subscription::read`
  unfoldable pub read_subscription :
      Subscription → Result String String → Result ClientError ServerMessage
  unfolding read_server_message
  read_subscription s input = read_server_message input s.expected_version

  -- A message's line is read by the client as that message.
  abbrev pub IsAccepted : (ServerMessage → String) → ℕ → ServerMessage → Type 0
  IsAccepted encode version m = read_server_message (ok (encode m <> "\n")) version ≡ ok m

  abbrev pub AcceptsSent : (ServerMessage → String) → ℕ → Effect → Type 0
  AcceptsSent encode version (sent stream m) = IsAccepted encode version m
  AcceptsSent encode version _ = Unit {0}

  -- What is written is decoded again.
  abbrev pub DecodesSent : (ServerMessage → String) → Effect → Type 0
  DecodesSent encode (sent stream m) = decode (encode m <> "\n") ≡ ok m
  DecodesSent encode _ = Unit {0}

  accepts_effect :
      (encode : ServerMessage → String) (version : ℕ) (e : Effect)
      → HasVersion version e
      → DecodesSent encode e
      → AcceptsSent encode version e
  unfolding read_server_message
  accepts_effect encode version (sent stream m) v h =
      rw (ends_in_line_feed (encode m), h) (ground (arith, v))
  accepts_effect encode version (executed request) v h = tt
  accepts_effect encode version (acknowledged ack) v h = tt

  accepts_effects :
      (encode : ServerMessage → String) (version : ℕ) (es : List Effect)
      → All (HasVersion version) es
      → All (DecodesSent encode) es
      → All (AcceptsSent encode version) es
  accepts_effects encode version [] v h = tt
  accepts_effects encode version (e ∷ es) v h =
      (accepts_effect encode version e v.0 h.0, accepts_effects encode version es v.1 h.1)

  -- A client takes every message with which the broker answers its request, whatever the request and the
  -- state of the broker, if the line that each of them is written on is decoded again: none has a version
  -- that the client did not ask for.
  pub handle_client-AcceptsSent :
      (encode : ServerMessage → String) (io : Io) (s : BrokerState) (c : ClientRequest) (stream : ℕ)
      → All (DecodesSent encode) (handle_client io s c.version c.request stream).1
      → All (AcceptsSent encode c.version) (handle_client io s c.version c.request stream).1
  handle_client-AcceptsSent encode io s c stream h =
      accepts_effects encode c.version (handle_client io s c.version c.request stream).1
        (handle_client-HasVersion io s c.version c.request stream) h
