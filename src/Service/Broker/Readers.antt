-- ===== src/Service/Broker/Readers.antt =====
-- Who is a subscriber after a run of `broker_loop` (service.rs), by the messages of the session.
use melibea.Base.{
  ℕ, ◌≡◌, ◌≢◌, refl, subst, Bool, not, ◌&&◌, inl, inr, String, List, [], ◌∷◌, some, ◌==◌, ◌=?◌, All,
  All-append, Bool-cases, Option-cases, filter, arith, list_eq, string_eq,
}
use melibea.Base.Vec.Keyed.{find}
use melibea.Protocol.Message.{Window, window_eq, Message}
use melibea.Protocol.Request.{Request, list, subscribe, minimize, restore, close}
use melibea.Service.Broker.{
  Io, Subscriber, stream_of, BrokerState, BrokerMessage, publish_windows, become_unavailable,
  client, shutdown, Effect, broadcast_to, sweep_departed, publication, publish, set_unavailable,
  add_subscriber, handle_client, handle, broker_loop,
}
use melibea.Service.Broker.Runs.{broker_loop-rule}

-- What a message asks for has a property of subscribers.
abbrev pub Asks : (Subscriber → Type 0) → BrokerMessage → Type 0
Asks P (client version subscribe stream) = P (record { version = version; stream = stream })
Asks P _ = Unit {0}

-- All that is asked for before the shutdown has a property.
abbrev pub AskedAll : (Subscriber → Type 0) → List (Io × BrokerMessage) → Type 0
AskedAll P [] = Unit {0}
AskedAll P ((io, shutdown) ∷ later) = Unit {0}
AskedAll P ((io, m) ∷ later) = Asks P m × AskedAll P later

module _ (P : Subscriber → Type 0) where
  filter-All : (p : Subscriber → Bool) (ss : List Subscriber) → All P ss → All P (filter p ss)
  filter-All p [] h = tt
  filter-All p (s ∷ ss) h = elim (Bool-cases (p s)) [
    | inl kept ↦ rw kept (h.0, filter-All p ss h.1)
    | inr dropped ↦ rw dropped (filter-All p ss h.1)
  ]

  broadcast_to-All :
      (io : Io) (message : Message) (ss : List Subscriber)
      → All P ss
      → All P (broadcast_to io message ss).0
  unfolding broadcast_to
  broadcast_to-All io message [] h = tt
  broadcast_to-All io message (s ∷ ss) h = elim (Bool-cases (io.writes s.stream)) [
    | inl kept ↦ rw kept (h.0, broadcast_to-All io message ss h.1)
    | inr dropped ↦ rw dropped (broadcast_to-All io message ss h.1)
  ]

  publish-All :
      (io : Io) (s next : BrokerState) (windows : List Window) (es : List Effect)
      → publish io s windows ≡ some (next, es)
      → All P s.subscribers
      → All P next.subscribers
  unfolding publish
  publish-All io s next windows es h all = elim (Bool-cases (s.ready && s.windows =? windows)) [
    | inl same ↦
        let here : s.subscribers ≡ next.subscribers = ground arith in subst (All P) here all
    | inr differs ↦ elim (Option-cases (publication s windows)) [
      | inl panics ↦ absurd (ground arith)
      | inr (message, e) ↦
          let here : (broadcast_to io message s.subscribers).0 ≡ next.subscribers = ground arith in
          subst (All P) here (broadcast_to-All io message s.subscribers all)
    ]
  ]

  set_unavailable-All :
      (io : Io) (s : BrokerState) (reason : String)
      → All P s.subscribers
      → All P (set_unavailable io s reason).0.subscribers
  unfolding set_unavailable
  set_unavailable-All io s reason all =
      elim (Bool-cases (not s.ready && s.unavailable_reason =? reason)) [
        | inl same ↦ rw same all
        | inr differs ↦ rw differs (broadcast_to-All io _ s.subscribers all)
      ]

  handle_client-All :
      (io : Io) (s : BrokerState) (version : ℕ) (request : Request) (stream : ℕ)
      → All P s.subscribers
      → Asks P (client version request stream)
      → All P (handle_client io s version request stream).0.subscribers
  unfolding handle_client add_subscriber sweep_departed
  handle_client-All io s version list stream all asked = all
  handle_client-All io s version subscribe stream all asked =
      elim (Bool-cases (io.writes stream && io.clones stream)) [
        | inl joins ↦ rw joins (All-append P _ _ (filter-All _ s.subscribers all) (asked, tt))
        | inr fails ↦ rw fails all
      ]
  handle_client-All io s version (minimize id transition) stream all asked = all
  handle_client-All io s version (restore id transition) stream all asked = all
  handle_client-All io s version (close id) stream all asked = all

  handle-All :
      (io : Io) (m : BrokerMessage) (s next : BrokerState) (es : List Effect)
      → handle io s m ≡ some (next, es)
      → All P s.subscribers
      → Asks P m
      → All P next.subscribers
  unfolding handle
  handle-All io (publish_windows windows ack) s next es h all asked =
      elim (Option-cases (publish io s windows)) [
        | inl panics ↦ absurd (ground arith)
        | inr ((end, made), gives) ↦
            let same : end ≡ next = ground arith in
            subst (λ n. All P n.subscribers) same (publish-All io s end windows made gives all)
      ]
  handle-All io (become_unavailable reason ack) s next es h all asked =
      let same : (set_unavailable io s reason).0 ≡ next = ground arith in
      subst (λ n. All P n.subscribers) same (set_unavailable-All io s reason all)
  handle-All io (client version request stream) s next es h all asked =
      let same : (handle_client io s version request stream).0 ≡ next = ground arith in
      subst (λ n. All P n.subscribers) same
        (handle_client-All io s version request stream all asked)
  handle-All io shutdown s next es h all asked =
      let same : s ≡ next = ground arith in subst (λ n. All P n.subscribers) same all

  AskedAll-split :
      (io : Io) (m : BrokerMessage) (later : List (Io × BrokerMessage))
      → m ≢ shutdown
      → AskedAll P ((io, m) ∷ later)
      → Asks P m × AskedAll P later
  AskedAll-split io (publish_windows windows ack) later apart h = h
  AskedAll-split io (become_unavailable reason ack) later apart h = h
  AskedAll-split io (client version request stream) later apart h = h
  AskedAll-split io shutdown later apart h = absurd (apart refl)

  -- Whoever is a subscriber at the end was one before or asked for it.
  pub broker_loop-All :
      (ms : List (Io × BrokerMessage)) (s last : BrokerState) (es : List Effect)
      → broker_loop ms s ≡ some (last, es)
      → All P s.subscribers
      → AskedAll P ms
      → All P last.subscribers
  broker_loop-All =
      broker_loop-rule (λ ms s last. All P s.subscribers → AskedAll P ms → All P last.subscribers)
        (λ s all asked. all) (λ io later s all asked. all)
        (λ io m later s next last es h rest apart all asked.
          let both = AskedAll-split io m later apart asked in
          rest (handle-All io m s next es h all both.0) both.1)

pub find-All :
    (P : Subscriber → Type 0) (k : ℕ) (t : Subscriber) (ss : List Subscriber)
    → All P ss
    → find stream_of k ss ≡ some t
    → P t × (t.stream ≡ k)
find-All P k t [] all h = absurd (ground arith)
find-All P k t (s ∷ ss) all h = elim (Bool-cases (s.stream == k)) [
  | inl same ↦ let here : s ≡ t = ground arith in (subst P here all.0, ground arith)
  | inr other ↦ find-All P k t ss all.1 (ground arith)
]
