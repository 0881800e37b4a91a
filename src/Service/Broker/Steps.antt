-- ===== src/Service/Broker/Steps.antt =====
-- The invariant of the broker of service.rs, and its broadcasts and answers.
use melibea.Base.{
  ℕ, ◌≡◌, sym, ◌∙◌, subst, Bool, true, false, inl, inr, String, List, [], ◌∷◌, ◌++◌, some,
  if◌then◌else◌, ◌==◌, ◌⊎◌, any, Bool-cases, Option-cases, arith, filter, list_eq,
}
use mathlib.Core.List.{append-nil}
use melibea.Base.Vec.Keyed.{has, find, IsDistinct, has-append, append-IsDistinct}
use melibea.Base.Vec.Search.{find_absent, find-append, has-filter, filter-IsDistinct, find-filter}
use melibea.Protocol.Message.{Window, window_id, window_eq, Message, ServerMessage, for_version}
use melibea.Service.Broker.{
  Io, Subscriber, stream_of, BrokerState, Effect, sent, broadcast, subscription_message,
}
use melibea.Service.Broker.Mirror.{
  Mirror, waiting, live, lost, receive_message, receive_all, mirror_of, inbox, receive_all-append,
}
use melibea.Service.Broker.Broadcast.{
  broadcast_to-absent, broadcast_to-IsDistinct, broadcast_to-find,
}

-- What reached each stream so far, before and after some effects.
abbrev pub Boxes : Type 0
Boxes = ℕ → List ServerMessage

abbrev pub extend : Boxes → List Effect → Boxes
extend box es k = box k ++ inbox k es

-- The streams `used` are those of the clients so far. A subscriber that reads its stream knows what
-- the broker has published.
pub record InStep (used : List ℕ) (s : BrokerState) (box : Boxes) : Type 0 where
  pub distinct_windows : s.ready ≡ true → IsDistinct window_id s.windows
  pub distinct : IsDistinct stream_of s.subscribers
  pub unused :
      (k : ℕ)
      → any (λ j. j == k) used ≡ false
      → (has stream_of k s.subscribers ≡ false) × (box k ≡ [])
  pub follows :
      (k : ℕ) (t : Subscriber)
      → find stream_of k s.subscribers ≡ some t
      → receive_all t.version waiting (box k) ≡ some (mirror_of s)

receive_all-one :
    (v : ℕ) (m next : Mirror) (message : Message)
    → receive_message m message ≡ some next
    → receive_all v m (for_version v message ∷ []) ≡ some next
unfolding receive_all
receive_all-one v m next message h = ground (arith, h)

receive_all-more :
    (v : ℕ) (m next : Mirror) (message : Message) (xs ys : List ServerMessage)
    → receive_all v waiting xs ≡ some m
    → ys ≡ for_version v message ∷ []
    → receive_message m message ≡ some next
    → receive_all v waiting (xs ++ ys) ≡ some next
receive_all-more v m next message xs ys h e r = rw e (
    receive_all-append v waiting m xs (for_version v message ∷ []) h
    ∙ receive_all-one v m next message r)

find-joined :
    (k : ℕ) (t reader : Subscriber) (old : List Subscriber)
    → find stream_of k (old ++ reader ∷ []) ≡ some t
    → (find stream_of k old ≡ some t) ⊎ ((reader.stream ≡ k) × (reader ≡ t))
find-joined k t reader old h = elim (Option-cases (find stream_of k old)) [
  | inr (t', e) ↦ inl (ground (arith, find-append stream_of k old (reader ∷ [])))
  | inl e ↦ inr (ground (arith, find-append stream_of k old (reader ∷ [])))
]

first_message :
    (s : BrokerState) → receive_message waiting (subscription_message s) ≡ some (mirror_of s)
unfolding receive_message
first_message s = elim (Bool-cases s.ready) [ inl up ↦ rw up | inr down ↦ rw down ]

module _ (used : List ℕ) (s : BrokerState) (box : Boxes) (inv : InStep used s box) where
  -- A broadcast that takes a reader from what was published to what is published now.
  pub broadcast-InStep :
      (io : Io) (revision : ℕ) (ready : Bool) (reason : String) (windows : List Window)
      (message : Message)
      → (ready ≡ true → IsDistinct window_id windows)
      → receive_message (mirror_of s) message
        ≡ some (if ready then live revision windows else lost revision reason)
      → (next : BrokerState)
      → next ≡ record {
        revision = revision;
        ready = ready;
        unavailable_reason = reason;
        windows = windows;
        subscribers = s.subscribers;
      }
      → InStep used (broadcast io next message).0 (extend box (broadcast io next message).1)
  broadcast-InStep io revision ready reason windows message d r next e =
      subst (λ n. InStep used (broadcast io n message).0 (extend box (broadcast io n message).1))
        (sym e)
        (record {
          distinct_windows = d;
          distinct = broadcast_to-IsDistinct io message s.subscribers inv.distinct;
          unused = λ k h.
              let (gone, empty) =
                broadcast_to-absent io message k s.subscribers (inv.unused k h).0 in
              (gone, rw ((inv.unused k h).1, empty));
          follows = λ k t h.
              let (old, copy) = broadcast_to-find io message k t s.subscribers inv.distinct h in
              receive_all-more t.version (mirror_of s) _ message (box k) _ (inv.follows k t old)
                copy r;
        })

  -- A subscriber's stream is no new one.
  subscribed-apart :
      (stream k : ℕ) (t : Subscriber)
      → any (λ j. j == stream) used ≡ false
      → find stream_of k s.subscribers ≡ some t
      → (stream == k) ≡ false
  subscribed-apart stream k t new h = elim (Bool-cases (stream == k)) [
    | inr apart ↦ apart
    | inl same ↦
        absurd
          (ground (arith, (inv.unused stream new).0, find_absent stream_of stream s.subscribers))
  ]

  -- An answer to a new client that is no subscriber.
  pub reply-InStep :
      (stream : ℕ) (es : List Effect)
      → any (λ j. j == stream) used ≡ false
      → ((k : ℕ) → (stream == k) ≡ false → inbox k es ≡ [])
      → InStep (stream ∷ used) s (extend box es)
  reply-InStep stream es new only = record {
    distinct_windows = inv.distinct_windows;
    distinct = inv.distinct;
    unused = λ k h.
        let (gone, empty) = inv.unused k (ground arith) in
        (gone, rw (empty, only k (ground arith)));
    follows = λ k t h.
        let apart : (stream == k) ≡ false = subscribed-apart stream k t new h in
        rw (only k apart, append-nil (box k)) (inv.follows k t h);
  }

  abbrev pub first : ℕ → ℕ → List Effect
  first version stream = sent stream (for_version version (subscription_message s)) ∷ []

  first_box :
      (version stream : ℕ)
      → any (λ j. j == stream) used ≡ false
      → extend box (first version stream) stream ≡ for_version version (subscription_message s) ∷ []
  first_box version stream new = rw (inv.unused stream new).1 (ground arith)

  -- A new client that becomes a subscriber, when `kept` tells which old ones stay.
  pub subscriber-InStep :
      (version stream : ℕ) (kept : Subscriber → Bool)
      → any (λ j. j == stream) used ≡ false
      → InStep
          (stream ∷ used)
          (record s {
            subscribers =
                filter kept s.subscribers ++ record { version = version; stream = stream } ∷ [];
          })
          (extend box (first version stream))
  subscriber-InStep version stream kept new =
      let reader : Subscriber = record { version = version; stream = stream } in
      let old : List Subscriber = filter kept s.subscribers in
      let (gone, empty) = inv.unused stream new in
      let absent : has stream_of stream old ≡ false =
        has-filter stream_of kept stream s.subscribers gone in
      record {
        distinct_windows = inv.distinct_windows;
        distinct =
            append-IsDistinct stream_of old reader
              (filter-IsDistinct stream_of kept s.subscribers inv.distinct) absent;
        unused = λ k h.
            let (missing, none_yet) = inv.unused k (ground arith) in
            (
              ground (
                arith,
                has-append stream_of k old (reader ∷ []),
                has-filter stream_of kept k s.subscribers missing,
              ),
              ground (arith, none_yet),
            );
        follows = λ k t h. elim (find-joined k t reader old h) [
          | inl stays ↦
              let before = find-filter stream_of kept k t s.subscribers inv.distinct stays in
              let apart = subscribed-apart stream k t new before in
              rw (apart, append-nil (box k)) (inv.follows k t before)
          | inr (here, same) ↦
              subst
                (λ j.
                  receive_all t.version waiting (extend box (first version stream) j)
                  ≡ some (mirror_of s))
                here
                (subst
                  (λ u.
                    receive_all u.version waiting (extend box (first version stream) stream)
                    ≡ some (mirror_of s))
                  same
                  (rw (first_box version stream new) (
                    receive_all-one version waiting (mirror_of s) (subscription_message s)
                      (first_message s))))
        ];
      }
