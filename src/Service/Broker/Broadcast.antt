-- ===== src/Service/Broker/Broadcast.antt =====
-- The recipients of a broadcast (service.rs).
use melibea.Base.{
  ℕ, ◌≡◌, refl, false, inl, inr, List, [], ◌∷◌, Option, none, some, ◌==◌, Bool-cases, arith,
}
use melibea.Base.Vec.Keyed.{has, find, IsDistinct}
use melibea.Base.Vec.Search.{find_absent}
use melibea.Protocol.Message.{Message, ServerMessage, for_version}
use melibea.Service.Broker.{Io, Subscriber, stream_of, broadcast_to, write_message}
use melibea.Service.Broker.Mirror.{inbox}

-- The messages that a broadcast sends to the stream of a subscriber.
abbrev pub copy_for : Message → Option Subscriber → List ServerMessage
copy_for message none = []
copy_for message (some s) = for_version s.version message ∷ []

module _ (io : Io) (message : Message) where
  pub broadcast_to-absent :
      (k : ℕ) (ss : List Subscriber)
      → has stream_of k ss ≡ false
      → (has stream_of k (broadcast_to io message ss).0 ≡ false)
        × (inbox k (broadcast_to io message ss).1 ≡ [])
  unfolding broadcast_to
  broadcast_to-absent k [] h = (refl, refl)
  broadcast_to-absent k (s ∷ ss) h = ground (arith, broadcast_to-absent k ss)

  pub broadcast_to-IsDistinct :
      (ss : List Subscriber)
      → IsDistinct stream_of ss
      → IsDistinct stream_of (broadcast_to io message ss).0
  unfolding broadcast_to
  broadcast_to-IsDistinct [] d = tt
  broadcast_to-IsDistinct (s ∷ ss) d = elim (Bool-cases (io.writes s.stream)) [
    | inl kept ↦ ground (arith, broadcast_to-IsDistinct ss d.1, broadcast_to-absent s.stream ss d.0)
    | inr dropped ↦ ground (arith, broadcast_to-IsDistinct ss d.1)
  ]

  -- A subscriber that is left was one before, and got the message once.
  pub broadcast_to-find :
      (k : ℕ) (t : Subscriber) (ss : List Subscriber)
      → IsDistinct stream_of ss
      → find stream_of k (broadcast_to io message ss).0 ≡ some t
      → (find stream_of k ss ≡ some t)
        × (inbox k (broadcast_to io message ss).1 ≡ for_version t.version message ∷ [])
  unfolding broadcast_to
  broadcast_to-find k t [] d h = absurd (ground arith)
  broadcast_to-find k t (s ∷ ss) d h = elim (Bool-cases (s.stream == k)) [
    | inl same ↦
        let gone = broadcast_to-absent k ss (ground arith) in
        ground (arith, gone, find_absent stream_of k (broadcast_to io message ss).0 gone.0)
    | inr other ↦ ground (arith, broadcast_to-find k t ss d.1)
  ]

-- What a write to one stream leaves in another.
pub write_message-other :
    (io : Io) (k stream : ℕ) (m : ServerMessage)
    → (stream == k) ≡ false
    → inbox k (write_message io stream m) ≡ []
write_message-other io k stream m h = ground arith
