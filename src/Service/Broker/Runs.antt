-- ===== src/Service/Broker/Runs.antt =====
-- What a run of `broker_loop` (service.rs) leaves, by one rule for all its messages.
use melibea.Base.{
  ℕ, String, ◌≡◌, ◌≢◌, refl, sym, ap, ◌∙◌, eq_of_beq, subst, ◌&&◌, inl, inr, List, [], ◌∷◌, ◌++◌,
  Option, none, some, ◌=?◌, Bool-cases, Option-cases, arith, list_eq, string_eq,
}
use melibea.Protocol.Message.{Window, window_eq}
use melibea.Protocol.Request.{Request, list, subscribe, minimize, restore, close}
use melibea.Service.Broker.{
  Io, BrokerState, BrokerMessage, publish_windows, become_unavailable, client, shutdown, Effect,
  publication, publish, set_unavailable, add_subscriber, handle_client, handle, broker_loop,
}
use melibea.Service.Broker.Mirror.{lost, mirror_of}
use melibea.Service.Broker.Asked.{shown, hidden, announced}

abbrev Outcome : Type 0
Outcome = Option (BrokerState × List Effect)

abbrev then_loop : List (Io × BrokerMessage) → Outcome → Outcome
then_loop later out = elim out [
  | none ↦ none
  | some (next, effects) ↦ elim (broker_loop later next) [
    | none ↦ none
    | some (last, more) ↦ some (last, effects ++ more)
  ]
]

message-runs :
    (out : Outcome) (later : List (Io × BrokerMessage)) (last : BrokerState) (es : List Effect)
    → then_loop later out ≡ some (last, es)
    → (next : BrokerState) × (made : List Effect) × (more : List Effect) × (out ≡ some (next, made))
      × (broker_loop later next ≡ some (last, more))
message-runs none later last es h = absurd (ground arith)
message-runs (some (next, made)) later last es h = elim (Option-cases (broker_loop later next)) [
  | inl panics ↦ absurd (ground arith)
  | inr ((end, more), runs) ↦ (next, made, more, refl, ground arith)
]

-- Whatever relates the ends of the empty session and of a session with one message more relates the
-- ends of every session.
pub broker_loop-rule :
    (R : List (Io × BrokerMessage) → BrokerState → BrokerState → Type 0)
    → ((s : BrokerState) → R [] s s)
    → ((io : Io) (later : List (Io × BrokerMessage)) (s : BrokerState)
        → R ((io, shutdown) ∷ later) s s)
    → ((io : Io) (m : BrokerMessage) (later : List (Io × BrokerMessage)) (s next last : BrokerState)
          (es : List Effect)
        → handle io s m ≡ some (next, es)
        → R later next last
        → m ≢ shutdown
        → R ((io, m) ∷ later) s last)
    → (ms : List (Io × BrokerMessage)) (s last : BrokerState) (es : List Effect)
    → broker_loop ms s ≡ some (last, es)
    → R ms s last
unfolding broker_loop
broker_loop-rule R empty stop step [] s last es h = subst (R [] s) (ground arith) (empty s)
broker_loop-rule R empty stop step ((io, shutdown) ∷ later) s last es h =
    subst (R ((io, shutdown) ∷ later) s) (ground arith) (stop io later s)
broker_loop-rule R empty stop step ((io, publish_windows windows ack) ∷ later) s last es h =
    let (next, made, more, taken, rest) =
      message-runs (handle io s (publish_windows windows ack)) later last es h in
    step io (publish_windows windows ack) later s next last made taken
      (broker_loop-rule R empty stop step later next last more rest) (λ e. ground (arith, e))
broker_loop-rule R empty stop step ((io, become_unavailable reason ack) ∷ later) s last es h =
    let (next, made, more, taken, rest) =
      message-runs (handle io s (become_unavailable reason ack)) later last es h in
    step io (become_unavailable reason ack) later s next last made taken
      (broker_loop-rule R empty stop step later next last more rest) (λ e. ground (arith, e))
broker_loop-rule R empty stop step ((io, client version request stream) ∷ later) s last es h =
    let (next, made, more, taken, rest) =
      message-runs (handle io s (client version request stream)) later last es h in
    step io (client version request stream) later s next last made taken
      (broker_loop-rule R empty stop step later next last more rest) (λ e. ground (arith, e))

publish-shown :
    (io : Io) (s next : BrokerState) (windows : List Window) (es : List Effect)
    → publish io s windows ≡ some (next, es)
    → mirror_of next ≡ shown (mirror_of s) windows
unfolding publish publication
publish-shown io s next windows es h = elim (Bool-cases s.ready) [
  | inr down ↦ ground (arith, down)
  | inl up ↦ elim (Bool-cases (s.windows =? windows)) [
    | inl same ↦ ground (arith, up, same)
    | inr differs ↦ ground (arith, up, differs)
  ]
]

set_unavailable-hidden :
    (io : Io) (s : BrokerState) (reason : String)
    → mirror_of (set_unavailable io s reason).0 ≡ hidden (mirror_of s) reason
unfolding set_unavailable
set_unavailable-hidden io s reason = elim (Bool-cases s.ready) [
  | inl up ↦ rw up
  | inr down ↦ elim (Bool-cases (s.unavailable_reason =? reason)) [
    | inl same ↦ rw (down, same) (ap (lost s.revision) (eq_of_beq s.unavailable_reason reason same))
    | inr differs ↦ rw (down, differs)
  ]
]

handle_client-mirror :
    (io : Io) (s : BrokerState) (version : ℕ) (request : Request) (stream : ℕ)
    → mirror_of (handle_client io s version request stream).0 ≡ mirror_of s
unfolding handle_client add_subscriber
handle_client-mirror io s version list stream = refl
handle_client-mirror io s version subscribe stream =
    elim (Bool-cases (io.writes stream && io.clones stream)) [
      | inl yes_all ↦ rw yes_all
      | inr fails ↦ rw fails
    ]
handle_client-mirror io s version (minimize id transition) stream = refl
handle_client-mirror io s version (restore id transition) stream = refl
handle_client-mirror io s version (close id) stream = refl

announced-step :
    (io : Io) (m : BrokerMessage) (later : List (Io × BrokerMessage)) (s next last : BrokerState)
    (es : List Effect)
    → handle io s m ≡ some (next, es)
    → mirror_of last ≡ announced (mirror_of next) later
    → m ≢ shutdown
    → mirror_of last ≡ announced (mirror_of s) ((io, m) ∷ later)
unfolding handle
announced-step io (publish_windows windows ack) later s next last es h rest apart =
    elim (Option-cases (publish io s windows)) [
      | inl panics ↦ absurd (ground arith)
      | inr ((end, made), gives) ↦
          let same : end ≡ next = ground arith in
          rest
          ∙ ap (λ m. announced m later)
              (ap mirror_of (sym same) ∙ publish-shown io s end windows made gives)
    ]
announced-step io (become_unavailable reason ack) later s next last es h rest apart =
    let same : next ≡ (set_unavailable io s reason).0 = ground arith in
    rest ∙ ap (λ m. announced m later) (ap mirror_of same ∙ set_unavailable-hidden io s reason)
announced-step io (client version request stream) later s next last es h rest apart =
    let same : next ≡ (handle_client io s version request stream).0 = ground arith in
    rest
    ∙ ap (λ m. announced m later)
        (ap mirror_of same ∙ handle_client-mirror io s version request stream)
announced-step io shutdown later s next last es h rest apart = absurd (apart refl)

-- A run ends with what the messages of the session announce.
pub broker_loop-announced :
    (ms : List (Io × BrokerMessage)) (s last : BrokerState) (es : List Effect)
    → broker_loop ms s ≡ some (last, es)
    → mirror_of last ≡ announced (mirror_of s) ms
broker_loop-announced =
    broker_loop-rule (λ ms s last. mirror_of last ≡ announced (mirror_of s) ms) (λ s. refl)
      (λ io later s. refl) announced-step
