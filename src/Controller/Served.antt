-- ===== src/Controller/Served.antt =====
-- main.rs and service.rs together: what the daemon calls of its service arrives at the broker as
-- messages, among those of the clients, and the subscribers see it.
use melibea.Base.{
  ℕ, ◌≡◌, subst, false, String, List, [], ◌∷◌, ◌++◌, refl, Option, some, ok, ◌==◌, any, All, arith,
}
use melibea.Config.{Platform}
use melibea.Config.Load.{Host}
use melibea.NiriIpc.Action.{Codec}
use melibea.Protocol.Message.{Window}
use melibea.Protocol.Request.{Request}
use melibea.Service.Socket.{SocketIo}
use melibea.Service.Broker.{
  Io, BrokerMessage, publish_windows, become_unavailable, client, shutdown,
}
use melibea.Service.Broker.Mirror.{Mirror}
use melibea.Service.Broker.Asked.{IsSession, unpublished, shown, hidden, announced}
use melibea.Service.Broker.Delivery.{Delivers}
use melibea.Service.Broker.Session.{broker_loop-follows}
use melibea.Controller.Daemon.{
  Reason, ServiceCall, publishes, withdraws, Session, Life, run_controller_inner,
}
use melibea.Controller.Alive.{IsDistinctCall, run_controller_inner-Lives}

-- The messages of a broker that has taken the calls: each call arrives once and in order, a client's
-- request may arrive anywhere between them, and the service may be dropped at the end. `text` is how a
-- reason is written.
pub data Serves (text : Reason → String)
    : List ServiceCall → List (Io × BrokerMessage) → Type 0 where
  over : Serves text [] []
  dropped : (io : Io) → Serves text [] ((io, shutdown) ∷ [])
  published :
      (io : Io)
      → (windows : List Window) → (ack : ℕ) → (calls : List ServiceCall)
      → (ms : List (Io × BrokerMessage)) → Serves text calls ms
      → Serves text (publishes windows ∷ calls) ((io, publish_windows windows ack) ∷ ms)
  withdrawn :
      (io : Io)
      → (reason : Reason) → (ack : ℕ) → (calls : List ServiceCall)
      → (ms : List (Io × BrokerMessage)) → Serves text calls ms
      → Serves text (withdraws reason ∷ calls) ((io, become_unavailable (text reason) ack) ∷ ms)
  asked :
      (io : Io)
      → (version : ℕ) → (request : Request) → (stream : ℕ) → (calls : List ServiceCall)
      → (ms : List (Io × BrokerMessage)) → Serves text calls ms
      → Serves text calls ((io, client version request stream) ∷ ms)

-- What a reader is to know after some calls, told from the calls alone.
abbrev pub heard : (Reason → String) → Mirror → List ServiceCall → Mirror
heard text m [] = m
heard text m (publishes windows ∷ calls) = heard text (shown m windows) calls
heard text m (withdraws reason ∷ calls) = heard text (hidden m (text reason)) calls

Serves-announced :
    (text : Reason → String) (calls : List ServiceCall) (ms : List (Io × BrokerMessage))
    (m : Mirror)
    → Serves text calls ms
    → announced m ms ≡ heard text m calls
Serves-announced text _ _ m over = refl
Serves-announced text _ _ m (dropped io) = refl
Serves-announced text _ _ m (published io windows ack calls ms s) =
    Serves-announced text calls ms (shown m windows) s
Serves-announced text _ _ m (withdrawn io reason ack calls ms s) =
    Serves-announced text calls ms (hidden m (text reason)) s
Serves-announced text calls _ m (asked io version request stream _ ms s) =
    Serves-announced text calls ms m s

-- Each client comes on a stream of its own.
abbrev pub HasOwnStreams : List ℕ → List (Io × BrokerMessage) → Type 0
HasOwnStreams used [] = Unit {0}
HasOwnStreams used ((io, publish_windows windows ack) ∷ later) = HasOwnStreams used later
HasOwnStreams used ((io, become_unavailable reason ack) ∷ later) = HasOwnStreams used later
HasOwnStreams used ((io, client version request stream) ∷ later) =
    (any (λ j. j == stream) used ≡ false) × HasOwnStreams (stream ∷ used) later
HasOwnStreams used ((io, shutdown) ∷ later) = Unit {0}

Serves-IsSession :
    (text : Reason → String) (calls : List ServiceCall) (ms : List (Io × BrokerMessage))
    (used : List ℕ)
    → Serves text calls ms
    → All IsDistinctCall calls
    → HasOwnStreams used ms
    → IsSession used ms
Serves-IsSession text _ _ used over d o = tt
Serves-IsSession text _ _ used (dropped io) d o = tt
Serves-IsSession text _ _ used (published io windows ack calls ms s) d o =
    (d.0, Serves-IsSession text calls ms used s d.1 o)
Serves-IsSession text _ _ used (withdrawn io reason ack calls ms s) d o =
    Serves-IsSession text calls ms used s d.1 o
Serves-IsSession text calls _ used (asked io version request stream _ ms s) d o =
    (o.0, Serves-IsSession text calls ms (stream ∷ used) s d o.1)

All-first :
    (taken rest : List ServiceCall) → All IsDistinctCall (taken ++ rest) → All IsDistinctCall taken
All-first [] rest h = tt
All-first (call ∷ taken) rest h = (h.0, All-first taken rest h.1)

-- The first calls are sound if all are.
All-prefix :
    (taken rest calls : List ServiceCall)
    → calls ≡ taken ++ rest
    → All IsDistinctCall calls
    → All IsDistinctCall taken
All-prefix taken rest calls e h = All-first taken rest (subst (All IsDistinctCall) e h)

-- End to end, at any point of the life of a daemon that has started: once a new broker has taken the
-- first so many calls of the daemon, with clients that come on streams of their own at any time between
-- them, it has not panicked, and it has what these calls say: the windows published last, or the reason
-- of a later withdrawal, or that nothing was published yet; with a revision that each publication raises
-- by one, up to the largest 64-bit value, unless the same windows were out already. Whoever is a
-- subscriber then has by the messages that reached it exactly that, in the version with which the client
-- of its stream asked to subscribe. Every client that asked to subscribe is such a subscriber if its
-- stream can always be written to and cloned and it never departs.
pub daemon-follows :
    (p : Platform) (codec : Codec) (h : Host) (io : SocketIo) (now : ℕ) (sessions : List Session)
    (given : Option String) (l : Life) (text : Reason → String) (taken rest : List ServiceCall)
    (ms : List (Io × BrokerMessage))
    → run_controller_inner p codec h io now sessions given ≡ ok (some l)
    → l.calls ≡ taken ++ rest
    → Serves text taken ms
    → HasOwnStreams [] ms
    → Delivers ms (heard text unpublished taken)
daemon-follows p codec h io now sessions given l text taken rest ms e first served own =
    let (l', same, sound) = run_controller_inner-Lives p codec h io now sessions given (some l) e in
    let kept : l' ≡ l = ground (arith, same) in
    let calls : All IsDistinctCall l.calls =
      subst (λ (k : Life). All IsDistinctCall k.calls) kept sound.distinct in
    let all : All IsDistinctCall taken = All-prefix taken rest l.calls first calls in
    subst (Delivers ms) (Serves-announced text taken ms unpublished served)
      (broker_loop-follows ms (Serves-IsSession text taken ms [] served all own))
