-- ===== src/Service/Broker/Delivery.antt =====
-- What a session of the broker of service.rs comes to for its clients.
use melibea.Base.{
  ℕ, ◌≡◌, ap, subst, ◌∙◌, inl, inr, true, List, [], ◌∷◌, some, ◌==◌, All, Bool-cases, arith,
}
use melibea.Base.Vec.Keyed.{has, find}
use melibea.Service.Broker.{
  Io, Subscriber, stream_of, BrokerState, new_state, BrokerMessage, Effect, broker_loop,
}
use melibea.Service.Broker.Mirror.{Mirror, waiting, receive_all, mirror_of, inbox}
use melibea.Service.Broker.Asked.{IsSession, unpublished, announced, asked_version, IsReached}
use melibea.Service.Broker.Runs.{broker_loop-announced}
use melibea.Service.Broker.Versions.{broker_loop-asked_version}
use melibea.Service.Broker.Kept.{broker_loop-has}

find-has :
    (k : ℕ) (ss : List Subscriber)
    → has stream_of k ss ≡ true
    → (t : Subscriber) × (find stream_of k ss ≡ some t)
find-has k [] h = absurd (ground arith)
find-has k (s ∷ ss) h = elim (Bool-cases (s.stream == k)) [
  | inl same ↦ (s, ground arith)
  | inr other ↦ let (t, e) = find-has k ss (ground arith) in (t, ground arith)
]

-- A new broker takes the whole session with no panic and ends with `known`. Whoever is a subscriber
-- then is one by the request of the client of its stream, and knows `known` by reading what reached
-- it in the version of that request. Every client that asked to subscribe, and at whose stream nothing
-- fails, is a subscriber then and knows it too.
pub record Delivers (session : List (Io × BrokerMessage)) (known : Mirror) : Type 0 where
  pub last : BrokerState
  pub effects : List Effect
  pub returns : broker_loop session new_state ≡ some (last, effects)
  pub ends : mirror_of last ≡ known
  pub reads :
      (stream : ℕ) (reader : Subscriber)
      → find stream_of stream last.subscribers ≡ some reader
      → (asked_version stream session ≡ some reader.version)
        × (receive_all reader.version waiting (inbox stream effects) ≡ some known)
  pub serves :
      (stream version : ℕ)
      → asked_version stream session ≡ some version
      → All (IsReached stream) session
      → (has stream_of stream last.subscribers ≡ true)
        × (receive_all version waiting (inbox stream effects) ≡ some known)

module _ (session : List (Io × BrokerMessage)) (h : IsSession [] session) (last : BrokerState)
    (es : List Effect) (gives : broker_loop session new_state ≡ some (last, es))
    (follows : (k : ℕ) (t : Subscriber)
      → find stream_of k last.subscribers ≡ some t
      → receive_all t.version waiting (inbox k es) ≡ some (mirror_of last)) where
  ends : mirror_of last ≡ announced unpublished session
  ends = broker_loop-announced session new_state last es gives

  reads :
      (stream : ℕ) (reader : Subscriber)
      → find stream_of stream last.subscribers ≡ some reader
      → (asked_version stream session ≡ some reader.version)
        × (receive_all reader.version waiting (inbox stream es)
            ≡ some (announced unpublished session))
  reads stream reader found = (
    broker_loop-asked_version session last es stream reader h gives found,
    follows stream reader found ∙ ap some ends,
  )

  serves :
      (stream version : ℕ)
      → asked_version stream session ≡ some version
      → All (IsReached stream) session
      → (has stream_of stream last.subscribers ≡ true)
        × (receive_all version waiting (inbox stream es) ≡ some (announced unpublished session))
  serves stream version asked reached =
      let there =
        broker_loop-has stream session new_state last es gives reached (inr (version, asked)) in
      let (reader, found) = find-has stream last.subscribers there in
      let (own, read) = reads stream reader found in
      let same : reader.version ≡ version = ground arith in
      (
        there,
        subst (λ v. receive_all v waiting (inbox stream es) ≡ some (announced unpublished session))
            same read,
      )

  -- Who knows what the broker has published knows what the session announced.
  pub reader-Delivers : Delivers session (announced unpublished session)
  reader-Delivers = record {
    last = last;
    effects = es;
    returns = gives;
    ends = ends;
    reads = reads;
    serves = serves;
  }
