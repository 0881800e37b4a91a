-- ===== src/Service/Broker/Session.antt =====
-- Sessions of the broker of service.rs.
use melibea.Base.{ℕ, ◌≡◌, ◌≢◌, refl, sym, ap, ◌∙◌, List, [], ◌∷◌, ◌++◌, Option, some, arith}
use mathlib.Core.List.{append-nil, append_assoc}
use melibea.Protocol.Message.{Window}
use melibea.Service.Broker.{
  Io, BrokerState, new_state, BrokerMessage, publish_windows, become_unavailable, client, shutdown,
  Effect, acknowledged, handle, publish, set_unavailable, handle_client, broker_loop,
}
use melibea.Service.Broker.Mirror.{inbox, inbox-append}
use melibea.Service.Broker.Asked.{IsSession, unpublished, announced}
use melibea.Service.Broker.Delivery.{Delivers, reader-Delivers}
use melibea.Service.Broker.Steps.{Boxes, extend, InStep}
use melibea.Service.Broker.Follows.{
  same_boxes, publish-InStep, set_unavailable-InStep, handle_client-InStep,
}

-- An acknowledgement reaches no stream.
acknowledged-InStep :
    (used : List ℕ) (s : BrokerState) (box : Boxes) (es : List Effect) (ack : ℕ)
    → InStep used s (extend box es)
    → InStep used s (extend box (es ++ acknowledged ack ∷ []))
acknowledged-InStep used s box es ack inv =
    same_boxes used s (extend box es) (extend box (es ++ acknowledged ack ∷ []))
      (λ k.
        ap (◌++◌ (box k))
          (sym (inbox-append k es (acknowledged ack ∷ []) ∙ append-nil (inbox k es))))
      inv

abbrev EndsAt : Boxes → Option (BrokerState × List Effect) → Type 0
EndsAt box out =
    (last : BrokerState) × (es : List Effect) × (used : List ℕ) × (out ≡ some (last, es))
    × InStep used last (extend box es)

loop-step :
    (io : Io) (m : BrokerMessage) (later : List (Io × BrokerMessage)) (s next last : BrokerState)
    (es more : List Effect)
    → handle io s m ≡ some (next, es)
    → m ≢ shutdown
    → broker_loop later next ≡ some (last, more)
    → broker_loop ((io, m) ∷ later) s ≡ some (last, es ++ more)
unfolding broker_loop
loop-step io (publish_windows windows ack) later s next last es more e h l =
    rw (e, broker_loop) (rw (l, broker_loop))
loop-step io (become_unavailable reason ack) later s next last es more e h l =
    rw (e, broker_loop) (rw (l, broker_loop))
loop-step io (client version request stream) later s next last es more e h l =
    rw (e, broker_loop) (rw (l, broker_loop))
loop-step io shutdown later s next last es more e h l = absurd (h refl)

handle-publish :
    (io : Io) (s next : BrokerState) (windows : List Window) (ack : ℕ) (es : List Effect)
    → publish io s windows ≡ some (next, es)
    → handle io s (publish_windows windows ack) ≡ some (next, es ++ acknowledged ack ∷ [])
unfolding handle
handle-publish io s next windows ack es e = rw (e, handle)

-- One message that does not end the loop, and the rest of the session.
then_rest :
    (io : Io) (m : BrokerMessage) (later : List (Io × BrokerMessage)) (s next : BrokerState)
    → (es : List Effect) (box : Boxes) → handle io s m ≡ some (next, es)
    → m ≢ shutdown
    → EndsAt (extend box es) (broker_loop later next)
    → EndsAt box (broker_loop ((io, m) ∷ later) s)
then_rest io m later s next es box e h (last, more, used, l, inv) = (
  last,
  es ++ more,
  used,
  loop-step io m later s next last es more e h l,
  same_boxes used last (extend (extend box es) more) (extend box (es ++ more))
      (λ k.
        append_assoc (box k) (inbox k es) (inbox k more)
        ∙ ap (◌++◌ (box k)) (sym (inbox-append k es more)))
      inv,
)

stays_put :
    (used : List ℕ) (s : BrokerState) (box : Boxes)
    → InStep used s box
    → InStep used s (extend box [])
stays_put used s box inv = same_boxes used s box (extend box []) (λ k. sym (append-nil (box k))) inv

session-InStep :
    (ms : List (Io × BrokerMessage)) (used : List ℕ) (s : BrokerState) (box : Boxes)
    → IsSession used ms
    → InStep used s box
    → EndsAt box (broker_loop ms s)
session-InStep [] used s box d inv =
    (s, [], used, unfold broker_loop in refl, stays_put used s box inv)
session-InStep ((io, shutdown) ∷ later) used s box d inv =
    (s, [], used, unfold broker_loop in refl, stays_put used s box inv)
session-InStep ((io, publish_windows windows ack) ∷ later) used s box d inv =
    let (next, es, gives, kept) = publish-InStep used s box inv io windows d.0 in
    let effects = es ++ acknowledged ack ∷ [] in
    then_rest io (publish_windows windows ack) later s next effects box
      (handle-publish io s next windows ack es gives) (λ e. ground (arith, e))
      (session-InStep later used next (extend box effects) d.1
        (acknowledged-InStep used next box es ack kept))
session-InStep ((io, become_unavailable reason ack) ∷ later) used s box d inv =
    let out = set_unavailable io s reason in
    let effects = out.1 ++ acknowledged ack ∷ [] in
    then_rest io (become_unavailable reason ack) later s out.0 effects box (unfold handle in refl)
      (λ e. ground (arith, e))
      (session-InStep later used out.0 (extend box effects) d (
        acknowledged-InStep used out.0 box out.1 ack
          (set_unavailable-InStep used s box inv io reason)))
session-InStep ((io, client version request stream) ∷ later) used s box d inv =
    let out = handle_client io s version request stream in
    then_rest io (client version request stream) later s out.0 out.1 box (unfold handle in refl)
      (λ e. ground (arith, e))
      (session-InStep later (stream ∷ used) out.0 (extend box out.1) d.1
        (handle_client-InStep used s box inv io version request stream d.0))

new_state-InStep : InStep [] new_state (λ k. [])
new_state-InStep = record {
  distinct_windows = λ h. absurd (ground (arith, h));
  distinct = tt;
  unused = λ k h. (refl, refl);
  follows = λ k t h. absurd (ground (arith, h));
}

-- A new broker takes every session in which each client comes on a stream of its own and no published
-- snapshot names a window twice to its end, with no panic. What it has then is what the session's
-- messages announce: the windows published last, or the reason of a later withdrawal, or that nothing
-- was published yet; with a revision that each publication raises by one, up to the largest 64-bit
-- value, unless the same windows were out already. Whoever is a subscriber then, whatever writes
-- failed in between, has read messages of the version with which the client of its stream asked to
-- subscribe, each change of which fits the state before it, and has by them exactly what was announced.
-- Every client that asked to subscribe is such a subscriber if its stream can always be written to and
-- cloned and it never departs.
pub broker_loop-follows :
    (session : List (Io × BrokerMessage))
    → IsSession [] session
    → Delivers session (announced unpublished session)
broker_loop-follows session h =
    let (last, es, used, gives, inv) =
      session-InStep session [] new_state (λ k. []) h new_state-InStep in
    reader-Delivers session h last es gives inv.follows
