-- ===== src/Controller/Guarded.antt =====
-- main.rs: what every run of a connection keeps to, however niri, the files and the service answer.
use melibea.Base.{
  ◌≡◌, refl, sym, ap, subst, inl, inr, Bool, List, [], ◌∷◌, Option, some, ok, err, Result-cases,
  Option-cases, Bool-cases, All, All-append, if◌then◌else◌,
}
use melibea.Base.Float.{Arithmetic}
use melibea.Base.Vec.Keyed.{IsDistinct}
use melibea.Config.{Config}
use melibea.Executor.{ResizeAction, no_pending, pop_next}
use melibea.Executor.Consistency.{after_call, pops, after_call-IsConsistent}
use melibea.Executor.Lawful.{IsRuleAction, pop_next-IsLawfulQueue}
use melibea.NiriIpc.{Transport}
use melibea.NiriIpc.Action.{Codec, send_width}
use melibea.Protocol.Message.{Window, window_id}
use melibea.Controller.{Controller}
use melibea.Controller.Lawful.{IsSafe, ingest_stream_message-KeepsSafe}
use melibea.Controller.Run.{
  Delivery, Channel, ConnectionError, reader_stopped, Ran, after, after_optional, ends, Outcome,
  ingest_delivery, and_then, drain_from, drain_stream_messages, Progress, done, failed, going,
  Round, resize_next, apply_pending,
}

module _ (config : Config) where
  -- The state is safe, no published list names a window twice, and every width is that of a rule.
  abbrev pub IsGuarded {ℓ} : {A : Type ℓ} → Ran A → Type 0
  IsGuarded r =
      IsSafe config r.state
      × All (IsDistinct window_id) r.published
      × All (IsRuleAction config) r.widths

  -- The same without a panic, with what holds of the end.
  abbrev pub Reaches {ℓ} : {A : Type ℓ} → (A → Type 0) → Option (Ran A) → Type ℓ
  Reaches {A = A} E out = (r : Ran A) × (out ≡ some r) × IsGuarded r × E r.ending

  abbrev pub Guarded {ℓ} : {A : Type ℓ} → Option (Ran A) → Type ℓ
  Guarded out = Reaches (λ _. Unit {0}) out

  pub after_optional-Reaches {ℓ} :
      {A : Type ℓ} (E : A → Type 0) (ps : List (List Window)) (ws : List ResizeAction)
      (out : Option (Ran A))
      → All (IsDistinct window_id) ps
      → All (IsRuleAction config) ws
      → Reaches E out
      → Reaches E (after_optional ps ws out)
  after_optional-Reaches E ps ws out hp hw (r, e, (safe, sent, asked), end) = (
    after ps ws r,
    ap (after_optional ps ws) e,
    (
      safe,
      All-append (IsDistinct window_id) ps r.published hp sent,
      All-append (IsRuleAction config) ws r.widths hw asked,
    ),
    end,
  )

  and_then-some {ℓ} :
      {A : Type ℓ} (E : A → Type 0) (r : Ran Outcome) (fail : ConnectionError → A)
      (next : Controller → Option (Ran A))
      → IsGuarded r
      → ((x : ConnectionError) → E (fail x))
      → ((c : Controller) → IsSafe config c → Reaches E (next c))
      → Reaches E (and_then (some r) fail next)
  unfolding and_then
  and_then-some E r fail next (safe, sent, asked) end h = elim (Result-cases r.ending) [
    | inr (x, e) ↦ rw (e, and_then) (_, refl, (safe, sent, asked), end x)
    | inl (u, e) ↦
        rw (e, and_then)
          (after_optional-Reaches E r.published r.widths (next r.state) sent asked (h r.state safe))
  ]

  pub and_then-Reaches {ℓ} :
      {A : Type ℓ} (E : A → Type 0) (out : Option (Ran Outcome)) (fail : ConnectionError → A)
      (next : Controller → Option (Ran A))
      → Guarded out
      → ((x : ConnectionError) → E (fail x))
      → ((c : Controller) → IsSafe config c → Reaches E (next c))
      → Reaches E (and_then out fail next)
  and_then-Reaches E out fail next (r, e, g, u) end h =
      subst (λ o. Reaches E (and_then o fail next)) (sym e) (and_then-some E r fail next g end h)

  ends-Guarded {ℓ} :
      {A : Type ℓ} (c : Controller) (a : A) → IsSafe config c → Guarded (some (ends c a))
  ends-Guarded c a s = (ends c a, refl, (s, tt, tt), tt)

  pub ingest_delivery-Guarded :
      (c : Controller) (d : Delivery) → IsSafe config c → Guarded (ingest_delivery c d)
  unfolding ingest_delivery
  ingest_delivery-Guarded c d s =
      let (i, e, safe, sent) = ingest_stream_message-KeepsSafe config d.takes c d.message s in
      rw (e, ingest_delivery) (_, refl, (safe, sent, tt), tt)

  drain_from-Guarded :
      (ds : List Delivery) (b : Bool) (c : Controller)
      → IsSafe config c
      → Guarded (drain_from ds b c)
  unfolding drain_from
  drain_from-Guarded [] b c s = ends-Guarded c (if b then err reader_stopped else ok tt) s
  drain_from-Guarded (d ∷ ds) b c s =
      and_then-Reaches (λ _. Unit {0}) (ingest_delivery c d) err (drain_from ds b)
        (ingest_delivery-Guarded c d s) (λ _. tt) (λ c s. drain_from-Guarded ds b c s)

  pub drain-Guarded :
      (channel : Channel) (c : Controller)
      → IsSafe config c
      → Guarded (drain_stream_messages channel c)
  unfolding drain_stream_messages
  drain-Guarded channel c s = drain_from-Guarded channel.waiting channel.disconnected c s

  popped-IsSafe :
      (c : Controller)
      → IsSafe config c
      → IsSafe config (record c { pending = (pop_next c.pending).0 })
  popped-IsSafe c s = record {
    well = record {
      agrees = s.well.agrees;
      consistent = unfold after_call in after_call-IsConsistent c.pending pops s.well.consistent;
      distinct = s.well.distinct;
    };
    ruled = record {
      configured = s.ruled.configured;
      queue = (pop_next-IsLawfulQueue config c.pending s.ruled.queue).0;
    };
  }

  module _ (codec : Codec) (arithmetic : Arithmetic) where
    resize_next-Guarded :
        (t : Transport) (next : Controller → Option (Ran Progress)) (c : Controller)
        → IsSafe config c
        → ((c : Controller) → IsSafe config c → Guarded (next c))
        → Guarded (resize_next codec arithmetic t next c)
    unfolding resize_next
    resize_next-Guarded t next c s h =
        let s' = popped-IsSafe c s in
        let rules = (pop_next-IsLawfulQueue config c.pending s.ruled.queue).1 in
        elim (Option-cases (pop_next c.pending).1) [
          | inl empty ↦ rw (empty, resize_next) (_, refl, (s', tt, tt), tt)
          | inr (a, e) ↦ elim (Result-cases (send_width codec arithmetic t a.window_id a.width)) [
            | inr (x, f) ↦ rw (e, f, resize_next) (_, refl, (s', tt, (rules a e, tt)), tt)
            | inl (u, f) ↦
                rw (e, f, resize_next)
                  (after_optional-Reaches (λ _. Unit {0}) [] (a ∷ []) _ tt (rules a e, tt) (h _ s'))
          ]
        ]

    pub apply_pending-Guarded :
        (rounds : List Round) (c : Controller)
        → IsSafe config c
        → Guarded (apply_pending codec arithmetic rounds c)
    unfolding apply_pending
    apply_pending-Guarded [] c s = ends-Guarded c (if no_pending c.pending then done else going) s
    apply_pending-Guarded (r ∷ rounds) c s = elim (Bool-cases (no_pending c.pending)) [
      | inl empty ↦ rw (empty, apply_pending) (ends-Guarded c done s)
      | inr some_left ↦
          rw (some_left, apply_pending)
            (and_then-Reaches (λ _. Unit {0}) (drain_stream_messages r.channel c) failed
              (resize_next codec arithmetic r.transport (apply_pending codec arithmetic rounds))
              (drain-Guarded r.channel c s) (λ _. tt)
              (λ c s.
                resize_next-Guarded r.transport (apply_pending codec arithmetic rounds) c s
                  (λ c s. apply_pending-Guarded rounds c s)))
    ]
