-- ===== src/Service/Broker/Asked.antt =====
-- What the messages of a session ask of the broker of service.rs, told from the messages alone.
use melibea.Base.{
  ℕ, ◌≡◌, true, false, String, List, [], ◌∷◌, Option, none, some, if◌then◌else◌, ◌==◌, ◌=?◌, any,
  saturating_suc, list_eq,
}
use melibea.Base.Vec.Keyed.{IsDistinct}
use melibea.Protocol.Message.{Window, window_id, window_eq}
use melibea.Protocol.Request.{subscribe}
use melibea.Service.Broker.{
  Io, subscriber_departed, BrokerMessage, publish_windows, become_unavailable, client, shutdown,
}
use melibea.Service.Broker.Mirror.{Mirror, waiting, live, lost}

-- Each client comes on a stream of its own and no published snapshot names a window twice.
abbrev pub IsSession : List ℕ → List (Io × BrokerMessage) → Type 0
IsSession used [] = Unit {0}
IsSession used ((io, publish_windows windows ack) ∷ later) =
    IsDistinct window_id windows × IsSession used later
IsSession used ((io, become_unavailable reason ack) ∷ later) = IsSession used later
IsSession used ((io, client version request stream) ∷ later) =
    (any (λ j. j == stream) used ≡ false) × IsSession (stream ∷ used) later
IsSession used ((io, shutdown) ∷ later) = Unit {0}

-- What a reader is to know before anything is published.
abbrev pub unpublished : Mirror
unpublished = lost 0 "awaiting authoritative niri snapshot"

-- After windows are published: the next revision, unless they are known already.
abbrev pub shown : Mirror → List Window → Mirror
shown waiting windows = waiting
shown (live revision old) windows =
    if old =? windows then live revision old else live (saturating_suc revision) windows
shown (lost revision reason) windows = live (saturating_suc revision) windows

-- After the windows are withdrawn: the same revision, with the reason.
abbrev pub hidden : Mirror → String → Mirror
hidden waiting reason = waiting
hidden (live revision old) reason = lost revision reason
hidden (lost revision old) reason = lost revision reason

-- What a reader is to know after a session: what was published and withdrawn, up to the shutdown.
abbrev pub announced : Mirror → List (Io × BrokerMessage) → Mirror
announced m [] = m
announced m ((io, publish_windows windows ack) ∷ later) = announced (shown m windows) later
announced m ((io, become_unavailable reason ack) ∷ later) = announced (hidden m reason) later
announced m ((io, client version request stream) ∷ later) = announced m later
announced m ((io, shutdown) ∷ later) = m

abbrev pub version_in : ℕ → ℕ → ℕ → Option ℕ → Option ℕ
version_in k version stream rest = if stream == k then some version else rest

-- The version with which the client of a stream asked to subscribe, before the shutdown.
abbrev pub asked_version : ℕ → List (Io × BrokerMessage) → Option ℕ
asked_version k [] = none
asked_version k ((io, publish_windows windows ack) ∷ later) = asked_version k later
asked_version k ((io, become_unavailable reason ack) ∷ later) = asked_version k later
asked_version k ((io, client version subscribe stream) ∷ later) =
    version_in k version stream (asked_version k later)
asked_version k ((io, client version request stream) ∷ later) = asked_version k later
asked_version k ((io, shutdown) ∷ later) = none

-- Nothing fails at the stream: it takes what is written, can be cloned, and its client stays.
abbrev pub IsReached : ℕ → Io × BrokerMessage → Type 0
IsReached k (io, message) =
    (io.writes k ≡ true) × (io.clones k ≡ true) × (subscriber_departed io k ≡ false)
