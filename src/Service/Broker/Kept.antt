-- ===== src/Service/Broker/Kept.antt =====
-- Which subscribers stay in a run of `broker_loop` (service.rs): those at whose streams nothing fails.
use melibea.Base.{
  ℕ, ◌≡◌, subst, true, false, not, ◌&&◌, ◌⊎◌, inl, inr, String, List, [], ◌∷◌, some, ◌==◌, ◌=?◌,
  All, Bool-cases, Option-cases, arith, list_eq, string_eq,
}
use melibea.Base.Vec.Keyed.{has, has-append}
use melibea.Protocol.Message.{Window, window_eq, Message}
use melibea.Protocol.Request.{Request, list, subscribe, minimize, restore, close}
use melibea.Service.Broker.{
  Io, Subscriber, stream_of, BrokerState, BrokerMessage, publish_windows, become_unavailable,
  client, shutdown, Effect, broadcast_to, sweep_departed, subscriber_departed, publication, publish,
  set_unavailable, add_subscriber, handle_client, handle, broker_loop,
}
use melibea.Service.Broker.Asked.{asked_version, IsReached}
use melibea.Service.Broker.Runs.{broker_loop-rule}

module _ (k : ℕ) where
  abbrev IsIn : BrokerState → Type 0
  IsIn s = has stream_of k s.subscribers ≡ true

  broadcast_to-has :
      (io : Io) (message : Message) (ss : List Subscriber)
      → io.writes k ≡ true
      → has stream_of k ss ≡ true
      → has stream_of k (broadcast_to io message ss).0 ≡ true
  unfolding broadcast_to
  broadcast_to-has io message [] w h = absurd (ground arith)
  broadcast_to-has io message (s ∷ ss) w h = elim (Bool-cases (s.stream == k)) [
    | inl same ↦ ground arith
    | inr other ↦ ground (arith, broadcast_to-has io message ss w)
  ]

  sweep_departed-has :
      (io : Io) (ss : List Subscriber)
      → subscriber_departed io k ≡ false
      → has stream_of k ss ≡ true
      → has stream_of k (sweep_departed io ss) ≡ true
  unfolding sweep_departed
  sweep_departed-has io [] stays h = absurd (ground arith)
  sweep_departed-has io (s ∷ ss) stays h = elim (Bool-cases (s.stream == k)) [
    | inl same ↦
        let here : k ≡ s.stream = ground arith in
        let kept : subscriber_departed io s.stream ≡ false =
          subst (λ j. subscriber_departed io j ≡ false) here stays in
        rw kept (ground arith)
    | inr other ↦ ground (arith, sweep_departed-has io ss stays)
  ]

  publish-has :
      (io : Io) (s next : BrokerState) (windows : List Window) (es : List Effect)
      → publish io s windows ≡ some (next, es)
      → io.writes k ≡ true
      → IsIn s
      → IsIn next
  unfolding publish
  publish-has io s next windows es h w i = elim (Bool-cases (s.ready && s.windows =? windows)) [
    | inl same ↦ ground arith
    | inr differs ↦ elim (Option-cases (publication s windows)) [
      | inl panics ↦ absurd (ground arith)
      | inr (message, e) ↦ ground (arith, broadcast_to-has io message s.subscribers w i)
    ]
  ]

  set_unavailable-has :
      (io : Io) (s : BrokerState) (reason : String)
      → io.writes k ≡ true
      → IsIn s
      → IsIn (set_unavailable io s reason).0
  unfolding set_unavailable
  set_unavailable-has io s reason w i =
      elim (Bool-cases (not s.ready && s.unavailable_reason =? reason)) [
        | inl same ↦ rw same i
        | inr differs ↦ rw differs (broadcast_to-has io _ s.subscribers w i)
      ]

  handle_client-has :
      (io : Io) (s : BrokerState) (version : ℕ) (request : Request) (stream : ℕ)
      → subscriber_departed io k ≡ false
      → IsIn s
      → IsIn (handle_client io s version request stream).0
  unfolding handle_client add_subscriber
  handle_client-has io s version list stream stays i = i
  handle_client-has io s version subscribe stream stays i =
      elim (Bool-cases (io.writes stream && io.clones stream)) [
        | inr fails ↦ rw fails i
        | inl joins ↦ rw joins (
            ground (
              arith,
              sweep_departed-has io s.subscribers stays i,
              has-append stream_of k (sweep_departed io s.subscribers)
                  (record { version = version; stream = stream } ∷ []),
            ))
      ]
  handle_client-has io s version (minimize id transition) stream stays i = i
  handle_client-has io s version (restore id transition) stream stays i = i
  handle_client-has io s version (close id) stream stays i = i

  subscribe-has :
      (io : Io) (s : BrokerState) (version stream : ℕ)
      → io.writes k ≡ true
      → io.clones k ≡ true
      → stream ≡ k
      → IsIn (handle_client io s version subscribe stream).0
  unfolding handle_client add_subscriber
  subscribe-has io s version stream w c same =
      rw (same, w, c)
        (ground (
          arith,
          has-append stream_of k (sweep_departed io s.subscribers)
              (record { version = version; stream = k } ∷ []),
        ))

  handle-has :
      (io : Io) (m : BrokerMessage) (s next : BrokerState) (es : List Effect)
      → handle io s m ≡ some (next, es)
      → IsReached k (io, m)
      → IsIn s
      → IsIn next
  unfolding handle
  handle-has io (publish_windows windows ack) s next es h reached i =
      elim (Option-cases (publish io s windows)) [
        | inl panics ↦ absurd (ground arith)
        | inr ((end, made), gives) ↦
            let same : end ≡ next = ground arith in
            subst IsIn same (publish-has io s end windows made gives reached.0 i)
      ]
  handle-has io (become_unavailable reason ack) s next es h reached i =
      let same : (set_unavailable io s reason).0 ≡ next = ground arith in
      subst IsIn same (set_unavailable-has io s reason reached.0 i)
  handle-has io (client version request stream) s next es h reached i =
      let same : (handle_client io s version request stream).0 ≡ next = ground arith in
      subst IsIn same (handle_client-has io s version request stream reached.2 i)
  handle-has io shutdown s next es h reached i = ground arith

  -- The stream is a subscriber's already, or its client asks for it.
  abbrev IsWanted : List (Io × BrokerMessage) → BrokerState → Type 0
  IsWanted ms s = IsIn s ⊎ ((version : ℕ) × (asked_version k ms ≡ some version))

  IsWanted-step :
      (io : Io) (m : BrokerMessage) (later : List (Io × BrokerMessage)) (s next : BrokerState)
      (es : List Effect)
      → handle io s m ≡ some (next, es)
      → IsReached k (io, m)
      → IsWanted ((io, m) ∷ later) s
      → IsWanted later next
  unfolding handle
  IsWanted-step io m later s next es h reached (inl i) = inl (handle-has io m s next es h reached i)
  IsWanted-step io (publish_windows windows ack) later s next es h reached (inr asked) = inr asked
  IsWanted-step io (become_unavailable reason ack) later s next es h reached (inr asked) = inr asked
  IsWanted-step io (client version subscribe stream) later s next es h reached (inr asked) =
      elim (Bool-cases (stream == k)) [
        | inr other ↦ inr (asked.0, ground (arith, asked.1))
        | inl same ↦
            let end : (handle_client io s version subscribe stream).0 ≡ next = ground arith in
            inl (
              subst IsIn end (subscribe-has io s version stream reached.0 reached.1 (ground arith)))
      ]
  IsWanted-step io (client version list stream) later s next es h reached (inr asked) = inr asked
  IsWanted-step io (client version (minimize id t) stream) later s next es h reached (inr asked) =
      inr asked
  IsWanted-step io (client version (restore id t) stream) later s next es h reached (inr asked) =
      inr asked
  IsWanted-step io (client version (close id) stream) later s next es h reached (inr asked) =
      inr asked
  IsWanted-step io shutdown later s next es h reached (inr asked) = absurd (ground (arith, asked.1))

  -- Whoever asks to subscribe is a subscriber at the end, if nothing fails at its stream.
  pub broker_loop-has :
      (ms : List (Io × BrokerMessage)) (s last : BrokerState) (es : List Effect)
      → broker_loop ms s ≡ some (last, es)
      → All (IsReached k) ms
      → IsWanted ms s
      → IsIn last
  broker_loop-has =
      broker_loop-rule (λ ms s last. All (IsReached k) ms → IsWanted ms s → IsIn last)
        (λ s reached wanted. elim wanted [
          | inl i ↦ i
          | inr asked ↦ absurd (ground (arith, asked.1))
        ])
        (λ io later s reached wanted. elim wanted [
          | inl i ↦ i
          | inr asked ↦ absurd (ground (arith, asked.1))
        ])
        (λ io m later s next last es h rest apart reached wanted.
          rest reached.1 (IsWanted-step io m later s next es h reached.0 wanted))
