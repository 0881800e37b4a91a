-- ===== src/Service/Broker/Mirror.antt =====
-- What a subscriber knows: the reading that PROTOCOL.md and `ServiceClient` give to the messages
-- of one subscription.
use melibea.Base.{
  ℕ, ◌≡◌, refl, inl, inr, String, List, [], ◌∷◌, ◌++◌, Option, none, some, if◌then◌else◌, ◌==◌,
  Option-cases, saturating_suc, arith,
}
use melibea.Protocol.Message.{Window, Message, snapshot, changes, unavailable, ServerMessage}
use melibea.Protocol.Diff.{apply_changes}
use melibea.Service.Broker.{BrokerState, Effect, sent, executed, acknowledged}

-- Nothing yet, the windows of a revision, or that there are none for now.
pub data Mirror : Type 0 where
  waiting : Mirror
  live : ℕ → List Window → Mirror
  lost : ℕ → String → Mirror

-- A change of another revision than the next, or one without a snapshot before it, is refused, and so
-- is a message of another kind.
unfoldable pub receive_message : Mirror → Message → Option Mirror
receive_message m (snapshot revision windows) = some (live revision windows)
receive_message m (unavailable revision reason) = some (lost revision reason)
receive_message (live old windows) (changes revision made) =
    let next = apply_changes made windows in
    if revision == saturating_suc old
    then elim next [ none ↦ none | some ws ↦ some (live revision ws) ]
    else none
receive_message m _ = none

-- `read_server_message` refuses an answer of another version.
unfoldable pub receive : ℕ → Mirror → ServerMessage → Option Mirror
unfolding receive_message
receive version m answer =
    if answer.version == version then receive_message m answer.message else none

unfoldable pub receive_all : ℕ → Mirror → List ServerMessage → Option Mirror
unfolding receive
receive_all version m [] = some m
receive_all version m (x ∷ xs) = elim (receive version m x) [
  | none ↦ none
  | some next ↦ receive_all version next xs
]

-- What the broker has published.
abbrev pub mirror_of : BrokerState → Mirror
mirror_of s = if s.ready then live s.revision s.windows else lost s.revision s.unavailable_reason

-- The messages that reached a stream, in order.
abbrev pub inbox : ℕ → List Effect → List ServerMessage
inbox k [] = []
inbox k (sent stream message ∷ es) =
    let rest = inbox k es in if stream == k then message ∷ rest else rest
inbox k (executed request ∷ es) = inbox k es
inbox k (acknowledged ack ∷ es) = inbox k es

pub inbox-append : (k : ℕ) (es fs : List Effect) → inbox k (es ++ fs) ≡ inbox k es ++ inbox k fs
inbox-append k [] fs = refl
inbox-append k (sent stream message ∷ es) fs = ground (arith, inbox-append k es fs)
inbox-append k (executed request ∷ es) fs = inbox-append k es fs
inbox-append k (acknowledged ack ∷ es) fs = inbox-append k es fs

pub receive_all-append :
    (v : ℕ) (m next : Mirror) (xs ys : List ServerMessage)
    → receive_all v m xs ≡ some next
    → receive_all v m (xs ++ ys) ≡ receive_all v next ys
unfolding receive_all
receive_all-append v m next [] ys h = ground arith
receive_all-append v m next (x ∷ xs) ys h = elim (Option-cases (receive v m x)) [
  | inl refused ↦ absurd (ground arith)
  | inr (mid, e) ↦ ground (arith, receive_all-append v mid next xs ys)
]
