-- ===== src/Executor/Lawful.antt =====
-- Every width in the queue of executor.rs comes from a rule of the configuration.
use melibea.Base.{
  ℕ, ◌≡◌, refl, subst, inl, inr, List, [], ◌∷◌, some, All, ◌==◌, ltb, Bool-cases, Option-cases,
  arith,
}
use melibea.Base.OrdMap
use melibea.Base.OrdMap.{OrdMap}
use melibea.Config.{Config}
use melibea.Transition.{WindowId, DecisionOutcome, resize, FocusDecision, FocusTransition}
use melibea.Transition.Lawful.{IsRuleWidth, IsLawful, IsLawfulTransition}
use melibea.Executor.{
  ResizeAction, PendingResizes, no_resizes, or_default, settle, ingest_decision, ingest_all, ingest,
  max_by_key, pop_next, forget_window, reset,
}
use melibea.Executor.Consistency.{get-settle, action_of}

module _ (config : Config) where
  abbrev pub IsRuleAction : ResizeAction → Type 0
  IsRuleAction a = IsRuleWidth config a.state a.width

  pub record IsLawfulQueue (p : PendingResizes) : Type 0 where
    pub lawful :
        (k : WindowId) (a : ResizeAction) → OrdMap.get k p.pending ≡ some a → IsRuleAction a

  action_of-IsRuleAction :
      (g : ℕ) (d : FocusDecision) (o : DecisionOutcome) (a : ResizeAction)
      → d.outcome ≡ o
      → IsLawful config d
      → action_of g d o ≡ some a
      → IsRuleAction a
  action_of-IsRuleAction g d (resize i w) a e h made =
      let same : record { generation = g; window_id = d.window_id; state = d.state; width = w }
          ≡ a =
        ground (arith, made) in
      subst IsRuleAction same (h i w e)
  action_of-IsRuleAction g d _ a e h made = absurd (ground (arith, made))

  settle-lawful :
      (g : ℕ) (d : FocusDecision) (m : OrdMap ResizeAction)
      → IsLawful config d
      → ((k : WindowId) (a : ResizeAction) → OrdMap.get k m ≡ some a → IsRuleAction a)
      → (k : WindowId) (a : ResizeAction) → OrdMap.get k (settle g d d.outcome m) ≡ some a
      → IsRuleAction a
  settle-lawful g d m h held k a at = elim (Bool-cases (k == d.window_id)) [
    | inl same ↦
        action_of-IsRuleAction g d d.outcome a refl h
          (ground (arith, at, same, get-settle g d d.outcome m k))
    | inr other ↦ held k a (ground (arith, at, other, get-settle g d d.outcome m k))
  ]

  ingest_decision-IsLawfulQueue :
      (g : ℕ) (p : PendingResizes) (d : FocusDecision)
      → IsLawful config d
      → IsLawfulQueue p
      → IsLawfulQueue (ingest_decision g p d)
  unfolding ingest_decision
  ingest_decision-IsLawfulQueue g p d h q =
      elim (Bool-cases (ltb g (or_default (OrdMap.get d.window_id p.latest_generation)))) [
        | inl stale ↦ rw stale (record { lawful = q.lawful })
        | inr fresh ↦ rw fresh (record { lawful = settle-lawful g d p.pending h q.lawful })
      ]

  ingest_all-IsLawfulQueue :
      (g : ℕ) (p : PendingResizes) (ds : List FocusDecision)
      → All (IsLawful config) ds
      → IsLawfulQueue p
      → IsLawfulQueue (ingest_all g p ds)
  unfolding ingest_all
  ingest_all-IsLawfulQueue g p [] h q = q
  ingest_all-IsLawfulQueue g p (d ∷ ds) h q =
      ingest_all-IsLawfulQueue g (ingest_decision g p d) ds h.1
        (ingest_decision-IsLawfulQueue g p d h.0 q)

  pub ingest-IsLawfulQueue :
      (p : PendingResizes) (t : FocusTransition)
      → IsLawfulTransition config t
      → IsLawfulQueue p
      → IsLawfulQueue (ingest p t)
  unfolding ingest
  ingest-IsLawfulQueue p t h q = ingest_all-IsLawfulQueue t.generation p t.decisions h q

  pub forget-IsLawfulQueue :
      (p : PendingResizes) (id : WindowId) → IsLawfulQueue p → IsLawfulQueue (forget_window p id)
  unfolding forget_window
  forget-IsLawfulQueue p id q = record {
    lawful = λ k a at. q.lawful k a (ground (arith, at, OrdMap.get-remove id k p.pending));
  }

  pub no_resizes-IsLawfulQueue : IsLawfulQueue no_resizes
  unfolding OrdMap.get
  no_resizes-IsLawfulQueue = record { lawful = λ k a at. absurd (ground (arith, at)) }

  pub reset-IsLawfulQueue : (p : PendingResizes) → IsLawfulQueue (reset p)
  unfolding reset
  reset-IsLawfulQueue p = no_resizes-IsLawfulQueue

  -- What is popped, and what is left.
  pub pop_next-IsLawfulQueue :
      (p : PendingResizes)
      → IsLawfulQueue p
      → IsLawfulQueue (pop_next p).0
        × ((a : ResizeAction) → (pop_next p).1 ≡ some a → IsRuleAction a)
  unfolding pop_next
  pop_next-IsLawfulQueue p q = elim (Option-cases (max_by_key (OrdMap.values p.pending))) [
    | inl empty ↦ rw (empty, pop_next) (q, λ a at. absurd (ground (arith, at)))
    | inr (best, found) ↦
        rw (found, pop_next)
          (
            record {
              lawful = λ k a at.
                  q.lawful k a (ground (arith, at, OrdMap.get-remove best.window_id k p.pending));
            },
            λ a at. q.lawful best.window_id a at,
          )
  ]
