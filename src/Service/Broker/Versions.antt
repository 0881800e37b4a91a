-- ===== src/Service/Broker/Versions.antt =====
-- The version that a subscriber of the broker of service.rs has: that of the request of its client.
use melibea.Base.{ℕ, ◌≡◌, subst, false, List, [], ◌∷◌, some, ◌==◌, any, arith, list_eq, string_eq}
use melibea.Base.Vec.Keyed.{find}
use melibea.Protocol.Message.{window_eq}
use melibea.Protocol.Request.{Request, list, subscribe, minimize, restore, close}
use melibea.Service.Broker.{
  Io, Subscriber, stream_of, BrokerState, new_state, BrokerMessage, publish_windows,
  become_unavailable, client, shutdown, Effect, broker_loop,
}
use melibea.Service.Broker.Asked.{IsSession, version_in, asked_version}
use melibea.Service.Broker.Readers.{Asks, AskedAll, broker_loop-All, find-All}

Asks-weaken :
    (P Q : Subscriber → Type 0) (version : ℕ) (request : Request) (stream : ℕ)
    → (P (record { version = version; stream = stream })
        → Q (record { version = version; stream = stream }))
    → Asks P (client version request stream)
    → Asks Q (client version request stream)
Asks-weaken P Q version list stream f h = tt
Asks-weaken P Q version subscribe stream f h = f h
Asks-weaken P Q version (minimize id transition) stream f h = tt
Asks-weaken P Q version (restore id transition) stream f h = tt
Asks-weaken P Q version (close id) stream f h = tt

-- What is asked for by clients on streams that are not in use yet.
AskedAll-weaken :
    (P Q : Subscriber → Type 0) (ms : List (Io × BrokerMessage)) (used : List ℕ)
    → IsSession used ms
    → ((t : Subscriber) → any (λ j. j == t.stream) used ≡ false → P t → Q t)
    → AskedAll P ms
    → AskedAll Q ms
AskedAll-weaken P Q [] used d f h = tt
AskedAll-weaken P Q ((io, shutdown) ∷ later) used d f h = tt
AskedAll-weaken P Q ((io, publish_windows windows ack) ∷ later) used d f h =
    (tt, AskedAll-weaken P Q later used d.1 f h.1)
AskedAll-weaken P Q ((io, become_unavailable reason ack) ∷ later) used d f h =
    (tt, AskedAll-weaken P Q later used d f h.1)
AskedAll-weaken P Q ((io, client version request stream) ∷ later) used d f h = (
  Asks-weaken P Q version request stream (f (record { version = version; stream = stream }) d.0)
      h.0,
  AskedAll-weaken P Q later (stream ∷ used) d.1 (λ t new. f t (ground arith)) h.1,
)

-- On streams of their own, each client that subscribes is the one that asked on its stream.
AskedAll-asked_version :
    (ms : List (Io × BrokerMessage)) (used : List ℕ)
    → IsSession used ms
    → AskedAll (λ t. asked_version t.stream ms ≡ some t.version) ms
AskedAll-asked_version [] used d = tt
AskedAll-asked_version ((io, shutdown) ∷ later) used d = tt
AskedAll-asked_version ((io, publish_windows windows ack) ∷ later) used d =
    (tt, AskedAll-asked_version later used d.1)
AskedAll-asked_version ((io, become_unavailable reason ack) ∷ later) used d =
    (tt, AskedAll-asked_version later used d)
AskedAll-asked_version ((io, client version subscribe stream) ∷ later) used d = (
  ground arith,
  AskedAll-weaken (λ t. asked_version t.stream later ≡ some t.version)
      (λ t. version_in t.stream version stream (asked_version t.stream later) ≡ some t.version)
      later (stream ∷ used) d.1 (λ t new asked. ground arith)
      (AskedAll-asked_version later (stream ∷ used) d.1),
)
AskedAll-asked_version ((io, client version list stream) ∷ later) used d =
    (tt, AskedAll-asked_version later (stream ∷ used) d.1)
AskedAll-asked_version ((io, client version (minimize id transition) stream) ∷ later) used d =
    (tt, AskedAll-asked_version later (stream ∷ used) d.1)
AskedAll-asked_version ((io, client version (restore id transition) stream) ∷ later) used d =
    (tt, AskedAll-asked_version later (stream ∷ used) d.1)
AskedAll-asked_version ((io, client version (close id) stream) ∷ later) used d =
    (tt, AskedAll-asked_version later (stream ∷ used) d.1)

-- A subscriber of a new broker has the version that the client of its stream asked for.
pub broker_loop-asked_version :
    (ms : List (Io × BrokerMessage)) (last : BrokerState) (es : List Effect) (k : ℕ)
    (t : Subscriber)
    → IsSession [] ms
    → broker_loop ms new_state ≡ some (last, es)
    → find stream_of k last.subscribers ≡ some t
    → asked_version k ms ≡ some t.version
broker_loop-asked_version ms last es k t d h found =
    let P : Subscriber → Type 0 = λ t. asked_version t.stream ms ≡ some t.version in
    let (asked, here) =
      find-All P k t last.subscribers
        (broker_loop-All P ms new_state last es h tt (AskedAll-asked_version ms [] d)) found in
    subst (λ j. asked_version j ms ≡ some t.version) here asked
