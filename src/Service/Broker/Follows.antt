-- ===== src/Service/Broker/Follows.antt =====
-- The operations of the broker of service.rs, as its subscribers see them.
use melibea.Base.{
  ℕ, ◌≡◌, refl, sym, ap, ◌∙◌, true, false, not, ◌&&◌, inl, inr, String, List, [], ◌∷◌, Option, some,
  ◌==◌, ◌=?◌, any, Bool-cases, saturating_suc, arith, list_eq, string_eq,
}
use mathlib.Core.List.{append-nil}
use melibea.Base.Vec.Keyed.{IsDistinct}
use melibea.Protocol.Message.{
  Window, window_id, window_eq, Message, ServerMessage, for_version, snapshot, changes, unavailable,
}
use melibea.Protocol.Request.{Request, list, subscribe, minimize, restore, close}
use melibea.Protocol.Diff.Exact.{diff_windows-exact}
use melibea.Service.Broker.{
  Io, BrokerState, Effect, executed, broadcast, write_message, list_message, action_message,
  sweep_departed, subscriber_departed, published, publication, publish, set_unavailable,
  add_subscriber, handle_client,
}
use melibea.Service.Broker.Mirror.{
  Mirror, waiting, live, lost, receive_message, receive_all, mirror_of,
}
use melibea.Service.Broker.Steps.{
  Boxes, extend, InStep, broadcast-InStep, reply-InStep, first, subscriber-InStep,
}

abbrev pub StepTo : List ℕ → Boxes → Option (BrokerState × List Effect) → Type 0
StepTo used box out =
    (next : BrokerState) × (es : List Effect) × (out ≡ some (next, es))
    × InStep used next (extend box es)

-- Boxes that agree at every stream.
pub same_boxes :
    (used : List ℕ) (s : BrokerState) (box other : Boxes)
    → ((k : ℕ) → box k ≡ other k)
    → InStep used s box
    → InStep used s other
same_boxes used s box other same inv = record {
  distinct_windows = inv.distinct_windows;
  distinct = inv.distinct;
  unused = λ k h. ((inv.unused k h).0, sym (same k) ∙ (inv.unused k h).1);
  follows = λ k t h. ap (receive_all t.version waiting) (sym (same k)) ∙ inv.follows k t h;
}

snapshot-received :
    (m : Mirror) (revision : ℕ) (ws : List Window)
    → receive_message m (snapshot revision ws) ≡ some (live revision ws)
unfolding receive_message
snapshot-received waiting revision ws = refl
snapshot-received (live r us) revision ws = refl
snapshot-received (lost r reason) revision ws = refl

lost-received :
    (m : Mirror) (revision : ℕ) (reason : String)
    → receive_message m (unavailable revision reason) ≡ some (lost revision reason)
unfolding receive_message
lost-received waiting revision reason = refl
lost-received (live r us) revision reason = refl
lost-received (lost r old) revision reason = refl

module _ (used : List ℕ) (s : BrokerState) (box : Boxes) (inv : InStep used s box) where
  quiet : InStep used s (extend box [])
  quiet = same_boxes used s box (extend box []) (λ k. sym (append-nil (box k))) inv

  -- What `publish` broadcasts takes a reader to the new windows.
  publication-received :
      (windows : List Window)
      → IsDistinct window_id windows
      → (message : Message) × (publication s windows ≡ some message)
        × (receive_message (mirror_of s) message ≡ some (live (saturating_suc s.revision) windows))
  unfolding publication receive_message
  publication-received windows d = elim (Bool-cases s.ready) [
    | inr down ↦ (
      snapshot (saturating_suc s.revision) windows,
      rw (down, publication),
      snapshot-received (mirror_of s) _ windows,
    )
    | inl up ↦
        let (made, gives, ends, applied) =
          diff_windows-exact s.windows windows (inv.distinct_windows up) d in
        (
          changes (saturating_suc s.revision) made,
          rw (up, publication) (rw (gives, publication)),
          ground (arith, up, applied),
        )
  ]

  publish-silent :
      (io : Io) (windows : List Window)
      → (s.ready && s.windows =? windows) ≡ true
      → publish io s windows ≡ some (s, [])
  unfolding publish
  publish-silent io windows same = rw (same, publish)

  publish-sends :
      (io : Io) (windows : List Window) (message : Message)
      → (s.ready && s.windows =? windows) ≡ false
      → publication s windows ≡ some message
      → publish io s windows ≡ some (broadcast io (published s windows) message)
  unfolding publish
  publish-sends io windows message differs e = rw (differs, publish) (rw (e, publish))

  pub publish-InStep :
      (io : Io) (windows : List Window)
      → IsDistinct window_id windows
      → StepTo used box (publish io s windows)
  publish-InStep io windows d = elim (Bool-cases (s.ready && s.windows =? windows)) [
    | inl same ↦ (s, [], publish-silent io windows same, quiet)
    | inr differs ↦
        let (message, gives, received) = publication-received windows d in
        (
          (broadcast io (published s windows) message).0,
          (broadcast io (published s windows) message).1,
          publish-sends io windows message differs gives,
          broadcast-InStep used s box inv io (saturating_suc s.revision) true "" windows message
              (λ h. d) received (published s windows) refl,
        )
  ]

  pub set_unavailable-InStep :
      (io : Io) (reason : String)
      → InStep used (set_unavailable io s reason).0 (extend box (set_unavailable io s reason).1)
  unfolding set_unavailable
  set_unavailable-InStep io reason =
      elim (Bool-cases (not s.ready && s.unavailable_reason =? reason)) [
        | inl same ↦ rw same quiet
        | inr differs ↦ rw differs (
            broadcast-InStep used s box inv io s.revision false reason s.windows
              (unavailable s.revision reason) (λ h. absurd (ground (arith, h)))
              (lost-received (mirror_of s) s.revision reason)
              (record s { ready = false; unavailable_reason = reason }) refl)
      ]

  -- The answer to one client, whether it subscribes or not.
  answer-InStep :
      (io : Io) (stream : ℕ) (m : ServerMessage)
      → any (λ j. j == stream) used ≡ false
      → InStep (stream ∷ used) s (extend box (write_message io stream m))
  answer-InStep io stream m new =
      reply-InStep used s box inv stream (write_message io stream m) new (λ k h. ground arith)

  add_subscriber-InStep :
      (io : Io) (version stream : ℕ)
      → any (λ j. j == stream) used ≡ false
      → InStep
          (stream ∷ used)
          (add_subscriber io s version stream).0
          (extend box (add_subscriber io s version stream).1)
  unfolding add_subscriber sweep_departed
  add_subscriber-InStep io version stream new = elim (Bool-cases (io.writes stream)) [
    | inr fails ↦ rw fails (reply-InStep used s box inv stream [] new (λ k h. refl))
    | inl arrives ↦ elim (Bool-cases (io.clones stream)) [
      | inr fails ↦
          rw (arrives, fails)
            (reply-InStep used s box inv stream (first used s box inv version stream) new
              (λ k h. ground arith))
      | inl cloned ↦
          rw (arrives, cloned)
            (subscriber-InStep used s box inv version stream
              (λ t. not (subscriber_departed io t.stream)) new)
    ]
  ]

  action-InStep :
      (io : Io) (request : Request) (stream : ℕ) (m : ServerMessage)
      → any (λ j. j == stream) used ≡ false
      → InStep (stream ∷ used) s (extend box (executed request ∷ write_message io stream m))
  action-InStep io request stream m new =
      reply-InStep used s box inv stream (executed request ∷ write_message io stream m) new
        (λ k h. ground arith)

  pub handle_client-InStep :
      (io : Io) (version : ℕ) (request : Request) (stream : ℕ)
      → any (λ j. j == stream) used ≡ false
      → InStep
          (stream ∷ used)
          (handle_client io s version request stream).0
          (extend box (handle_client io s version request stream).1)
  unfolding handle_client
  handle_client-InStep io version list stream new =
      answer-InStep io stream (for_version version (list_message s)) new
  handle_client-InStep io version subscribe stream new = add_subscriber-InStep io version stream new
  handle_client-InStep io version (minimize id transition) stream new =
      action-InStep io (minimize id transition) stream
        (for_version version (action_message (io.execute (minimize id transition)))) new
  handle_client-InStep io version (restore id transition) stream new =
      action-InStep io (restore id transition) stream
        (for_version version (action_message (io.execute (restore id transition)))) new
  handle_client-InStep io version (close id) stream new =
      action-InStep io (close id) stream
        (for_version version (action_message (io.execute (close id)))) new
