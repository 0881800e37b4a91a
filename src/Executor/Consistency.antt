-- ===== src/Executor/Consistency.antt =====
-- What holds of the queue of executor.rs between two calls.
use melibea.Base.{
  ℕ, ◌≡◌, List, [], ◌∷◌, Option, none, some, arith, if◌then◌else◌, ◌==◌, Option-cases, inl, inr,
}
use melibea.Base.OrdMap
use melibea.Base.OrdMap.{OrdMap}
use melibea.Transition.{WindowId, DecisionOutcome, resize, FocusDecision, FocusTransition}
use melibea.Executor.{
  ResizeAction, PendingResizes, no_resizes, or_default, settle, ingest_decision, ingest_all, ingest,
  max_by_key, pop_next, forget_window, reset,
}

-- Every queued action stands under its own window and carries the latest number seen for it.
pub record IsConsistent (p : PendingResizes) : Type 0 where
  pub sorted : OrdMap.IsSorted p.pending
  pub keyed :
      (k : WindowId) (a : ResizeAction)
      → OrdMap.get k p.pending ≡ some a
      → (a.window_id ≡ k) × (OrdMap.get k p.latest_generation ≡ some a.generation)

settle-IsSorted :
    (g : ℕ) (d : FocusDecision) (o : DecisionOutcome) (m : OrdMap ResizeAction)
    → OrdMap.IsSorted m
    → OrdMap.IsSorted (settle g d o m)
unfolding settle
settle-IsSorted g d (resize i w) m s = OrdMap.insert-IsSorted d.window_id _ m s
settle-IsSorted g d _ m s = OrdMap.remove-IsSorted d.window_id m s

-- The action that an outcome queues.
abbrev pub action_of : ℕ → FocusDecision → DecisionOutcome → Option ResizeAction
action_of g d (resize i w) =
    some (record { generation = g; window_id = d.window_id; state = d.state; width = w })
action_of g d _ = none

pub get-settle :
    (g : ℕ) (d : FocusDecision) (o : DecisionOutcome) (m : OrdMap ResizeAction) (k : WindowId)
    → OrdMap.get k (settle g d o m) ≡ (if k == d.window_id then action_of g d o else OrdMap.get k m)
unfolding settle
get-settle g d (resize i w) m k = OrdMap.get-insert d.window_id k _ m
get-settle g d _ m k = OrdMap.get-remove d.window_id k m

action_of-key :
    (g : ℕ) (d : FocusDecision) (o : DecisionOutcome) (a : ResizeAction)
    → action_of g d o ≡ some a
    → (a.window_id ≡ d.window_id) × (a.generation ≡ g)
action_of-key g d (resize i w) a h = ground arith
action_of-key g d _ a h = ground arith

pub ingest_decision-IsConsistent :
    (g : ℕ) (p : PendingResizes) (d : FocusDecision)
    → IsConsistent p
    → IsConsistent (ingest_decision g p d)
ingest_decision-IsConsistent g p d c = record {
  sorted =
      unfold ingest_decision in
      ground (arith, settle-IsSorted g d d.outcome p.pending c.sorted, c.sorted);
  keyed = λ k a h.
      unfold ingest_decision in
      ground (
        arith,
        get-settle g d d.outcome p.pending k,
        OrdMap.get-insert d.window_id k g p.latest_generation,
        OrdMap.get-insert d.window_id k (or_default (OrdMap.get d.window_id p.latest_generation))
            p.latest_generation,
        c.keyed k a,
        action_of-key g d d.outcome a,
      );
}

ingest_all-IsConsistent :
    (g : ℕ) (p : PendingResizes) (ds : List FocusDecision)
    → IsConsistent p
    → IsConsistent (ingest_all g p ds)
unfolding ingest_all
ingest_all-IsConsistent g p [] c = c
ingest_all-IsConsistent g p (d ∷ ds) c =
    ingest_all-IsConsistent g (ingest_decision g p d) ds (ingest_decision-IsConsistent g p d c)

pop_next-IsConsistent : (p : PendingResizes) → IsConsistent p → IsConsistent (pop_next p).0
unfolding pop_next
pop_next-IsConsistent p c = elim (Option-cases (max_by_key (OrdMap.values p.pending))) [
  | inl empty ↦ rw (empty, pop_next) c
  | inr (best, found) ↦
      rw (found, pop_next)
        (record {
          sorted = OrdMap.remove-IsSorted best.window_id p.pending c.sorted;
          keyed =
              λ k a h. ground (arith, OrdMap.get-remove best.window_id k p.pending, c.keyed k a);
        })
]

forget-IsConsistent :
    (p : PendingResizes) (id : WindowId) → IsConsistent p → IsConsistent (forget_window p id)
unfolding forget_window
forget-IsConsistent p id c = record {
  sorted = OrdMap.remove-IsSorted id p.pending c.sorted;
  keyed = λ k a h. ground (
    arith,
    OrdMap.get-remove id k p.pending,
    OrdMap.get-remove id k p.latest_generation,
    c.keyed k a,
  );
}

pub no_resizes-IsConsistent : IsConsistent no_resizes
unfolding OrdMap.get
no_resizes-IsConsistent = record { sorted = tt; keyed = λ k a h. ground arith }

-- The calls that the queue takes.
pub data QueueCall : Type 0 where
  ingests : FocusTransition → QueueCall
  pops : QueueCall
  forgets : WindowId → QueueCall
  resets : QueueCall

unfoldable pub after_call : PendingResizes → QueueCall → PendingResizes
after_call p (ingests t) = ingest p t
after_call p pops = (pop_next p).0
after_call p (forgets id) = forget_window p id
after_call p resets = reset p

-- Every call keeps the queue consistent: at most one action for a window, under its own id, and with
-- the latest number that was seen for that window.
pub after_call-IsConsistent :
    (p : PendingResizes) (c : QueueCall) → IsConsistent p → IsConsistent (after_call p c)
unfolding after_call ingest reset
after_call-IsConsistent p (ingests t) h = ingest_all-IsConsistent t.generation p t.decisions h
after_call-IsConsistent p pops h = pop_next-IsConsistent p h
after_call-IsConsistent p (forgets id) h = forget-IsConsistent p id h
after_call-IsConsistent p resets h = no_resizes-IsConsistent
