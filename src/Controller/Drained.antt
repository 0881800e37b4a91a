-- ===== src/Controller/Drained.antt =====
-- main.rs: the loop over the queue ends when niri answers.
use melibea.Base.{
  ℕ, zero, suc, ◌+◌, ◌≤◌, ◌≡◌, refl, sym, ap, ◌∙◌, inl, inr, true, false, List, [], ◌∷◌, Option,
  none, some, ok, All, length, eq-nil_of_length, is_empty, arith,
}
use melibea.Base.Float.{Arithmetic}
use melibea.Attention.{Proportion}
use melibea.Executor.{ResizeAction, PendingResizes, no_pending, pop_next}
use melibea.Executor.Consistency.{IsConsistent, after_call, pops, after_call-IsConsistent}
use melibea.Executor.Pop.{pop_next-Pops, pop_all, Drains, pop_all-Drains_at}
use melibea.NiriIpc.Action.{Codec, send_width}
use melibea.Transition.{WindowId}
use melibea.Controller.{Controller}
use melibea.Controller.Run.{
  Channel, Ran, after_optional, ends, and_then, drain_from, drain_stream_messages, Progress, done,
  Round, resize_next, apply_pending,
}

-- An empty channel.
abbrev pub IsQuiet : Channel → Type 0
IsQuiet channel = (channel.waiting ≡ []) × (channel.disconnected ≡ false)

quiet-drain :
    (channel : Channel) (c : Controller)
    → IsQuiet channel
    → drain_stream_messages channel c ≡ some (ends c (ok tt))
unfolding drain_stream_messages drain_from
quiet-drain channel c (w, d) = rw (w, d) refl

after_nothing {ℓ} : {A : Type ℓ} (out : Option (Ran A)) → after_optional [] [] out ≡ out
after_nothing none = refl
after_nothing (some r) = refl

nothing_left : (xs : List (ℕ × ResizeAction)) → xs ≡ [] → is_empty xs ≡ true
nothing_left xs e = ap is_empty e

something_left {ℓ} : {A : Type ℓ} (xs : List A) (n : ℕ) → n + 1 ≡ length xs → is_empty xs ≡ false
something_left [] n e = absurd (omega arith)
something_left (x ∷ xs) n e = refl

pop_all-none : (fuel : ℕ) (p : PendingResizes) → (pop_next p).1 ≡ none → pop_all fuel p ≡ (p, [])
unfolding pop_all
pop_all-none zero p out = refl
pop_all-none (suc fuel) p out = rw (out, pop_all) refl

pop_all-some :
    (fuel : ℕ) (p : PendingResizes) (a : ResizeAction)
    → (pop_next p).1 ≡ some a
    → pop_all (suc fuel) p ≡ ((pop_all fuel (pop_next p).0).0, a ∷ (pop_all fuel (pop_next p).0).1)
unfolding pop_all
pop_all-some fuel p a out = rw (out, pop_all) refl

module _ (codec : Codec) (arithmetic : Arithmetic) where
  -- A round in which no message waits and niri carries out every action.
  abbrev pub IsServed : Round → Type 0
  IsServed r =
      IsQuiet r.channel
      × ((id : WindowId) (width : Proportion)
          → send_width codec arithmetic r.transport id width ≡ ok tt)

  -- The state and the widths after what was popped.
  abbrev drained : Controller → PendingResizes × List ResizeAction → Ran Progress
  drained c out = record {
    state = record c { pending = out.0 };
    published = [];
    widths = out.1;
    ending = done;
  }

  round-served :
      (r : Round) (rounds : List Round) (c : Controller) (best : ResizeAction)
      → IsServed r
      → no_pending c.pending ≡ false
      → (pop_next c.pending).1 ≡ some best
      → apply_pending codec arithmetic (r ∷ rounds) c
        ≡ after_optional []
            (best ∷ [])
            (apply_pending codec arithmetic rounds (record c { pending = (pop_next c.pending).0 }))
  unfolding apply_pending and_then
  round-served r rounds c best (quiet, served) left popped =
      rw (left, apply_pending)
        (rw (quiet-drain r.channel c quiet, and_then)
          (after_nothing _
            ∙ resized r.transport (apply_pending codec arithmetic rounds) c best served popped))
    where
      resized :
          (t : _) (next : Controller → Option (Ran Progress)) (c : Controller) (best : ResizeAction)
          → ((id : WindowId) (width : Proportion) → send_width codec arithmetic t id width ≡ ok tt)
          → (pop_next c.pending).1 ≡ some best
          → resize_next codec arithmetic t next c
            ≡ after_optional [] (best ∷ []) (next (record c { pending = (pop_next c.pending).0 }))
      resized t next c best served popped =
          unfold resize_next in rw (popped, served best.window_id best.width, resize_next) refl

  empty-drained :
      (rounds : List Round) (c : Controller)
      → c.pending.pending ≡ []
      → apply_pending codec arithmetic rounds c ≡ some (drained c (c.pending, []))
  unfolding apply_pending
  empty-drained [] c e = rw (nothing_left c.pending.pending e) refl
  empty-drained (r ∷ rounds) c e = rw (nothing_left c.pending.pending e, apply_pending) refl

  apply_pending-drained :
      (rounds : List Round) (c : Controller)
      → All IsServed rounds
      → IsConsistent c.pending
      → length c.pending.pending ≤ length rounds
      → apply_pending codec arithmetic rounds c
        ≡ some (drained c (pop_all (length rounds) c.pending))
  apply_pending-drained [] c h k enough =
      empty-drained [] c (eq-nil_of_length c.pending.pending enough)
      ∙ sym (ap (λ o. some (drained c o)) (unfold pop_all in refl))
  apply_pending-drained (r ∷ rounds) c h k enough = elim (pop_next-Pops c.pending k) [
    | inl (empty, out) ↦
        empty-drained (r ∷ rounds) c empty
        ∙ sym (ap (λ o. some (drained c o)) (pop_all-none (length (r ∷ rounds)) c.pending out))
    | inr (best, out, taken) ↦
        let after : IsConsistent (pop_next c.pending).0 =
          unfold after_call in after_call-IsConsistent c.pending pops k in
        let c' : Controller = record c { pending = (pop_next c.pending).0 } in
        round-served r rounds c best h.0 (something_left c.pending.pending _ taken.fewer) out
        ∙ ap (after_optional [] (best ∷ []))
            (apply_pending-drained rounds c' h.1 after (omega (arith, taken.fewer, enough)))
        ∙ sym (ap (λ o. some (drained c o)) (pop_all-some (length rounds) c.pending best out))
  ]

  -- The loop over the queue ends, with as many rounds as windows are queued, if niri carries out every
  -- action and no message arrives meanwhile: the queue is then empty and niri was asked for each queued
  -- width once, newer observations first and, within one observation, the focused window first.
  pub apply_pending-Drains :
      (rounds : List Round) (c : Controller)
      → All IsServed rounds
      → IsConsistent c.pending
      → length c.pending.pending ≤ length rounds
      → (r : Ran Progress) × (apply_pending codec arithmetic rounds c ≡ some r)
        × (r.ending ≡ done)
        × (r.published ≡ [])
        × Drains c.pending r.state.pending r.widths
  apply_pending-Drains rounds c h k enough = (
    _,
    apply_pending-drained rounds c h k enough,
    refl,
    refl,
    pop_all-Drains_at (length rounds) c.pending k enough,
  )
