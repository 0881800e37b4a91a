-- ===== src/Executor/Ingest.antt =====
-- What a transition does to the queue of executor.rs, seen at one window.
use melibea.Base.{ℕ, ◌≡◌, refl, List, [], ◌∷◌, Option, none, some, arith, ltb, if◌then◌else◌, ◌==◌}
use melibea.Base.OrdMap
use melibea.Transition.{WindowId, FocusDecision, FocusTransition}
use melibea.Executor.{
  ResizeAction, PendingResizes, or_default, ingest_decision, ingest_all, ingest, forget_window,
}
use melibea.Executor.Consistency.{action_of, get-settle}

-- The last decision about a window.
abbrev pub last_for : WindowId → List FocusDecision → Option FocusDecision
last_for k [] = none
last_for k (d ∷ ds) = elim (last_for k ds) [
  | some e ↦ some e
  | none ↦ if k == d.window_id then some d else none
]

-- The latest number seen for a window.
abbrev pub latest_of : PendingResizes → WindowId → ℕ
latest_of p k = or_default (OrdMap.get k p.latest_generation)

-- The queued action for a window after a transition numbered `g`: that of the last decision about it,
-- and the old one if there is no decision or the transition is stale.
abbrev pub queued_after : ℕ → PendingResizes → WindowId → Option FocusDecision → Option ResizeAction
queued_after g p k none = OrdMap.get k p.pending
queued_after g p k (some d) =
    if ltb g (latest_of p k) then OrdMap.get k p.pending else action_of g d d.outcome

module _ (g : ℕ) (p : PendingResizes) (d : FocusDecision) (k : WindowId) where
  pending-ingest_decision :
      OrdMap.get k (ingest_decision g p d).pending
      ≡ queued_after g p k (if k == d.window_id then some d else none)
  unfolding ingest_decision
  pending-ingest_decision = ground (arith, get-settle g d d.outcome p.pending k)

  latest-ingest_decision : latest_of (ingest_decision g p d) k ≡ (
      if k == d.window_id
      then (if ltb g (latest_of p k) then latest_of p k else g)
      else latest_of p k)
  unfolding ingest_decision
  latest-ingest_decision = ground (
    arith,
    OrdMap.get-insert d.window_id k g p.latest_generation,
    OrdMap.get-insert d.window_id k (latest_of p d.window_id) p.latest_generation,
  )

ingest_all-queued_after :
    (g : ℕ) (p : PendingResizes) (ds : List FocusDecision) (k : WindowId)
    → OrdMap.get k (ingest_all g p ds).pending ≡ queued_after g p k (last_for k ds)
unfolding ingest_all
ingest_all-queued_after g p [] k = refl
ingest_all-queued_after g p (d ∷ ds) k = ground (
  arith,
  ingest_all-queued_after g (ingest_decision g p d) ds k,
  pending-ingest_decision g p d k,
  latest-ingest_decision g p d k,
)

-- After a transition the action queued for a window is the one of the transition's last decision about
-- it: a resize queues its width and any other outcome cancels what was queued. It stays as it was if
-- the transition does not decide about the window, or is older than the latest one seen for it.
pub ingest-queued_after :
    (p : PendingResizes) (t : FocusTransition) (k : WindowId)
    → OrdMap.get k (ingest p t).pending ≡ queued_after t.generation p k (last_for k t.decisions)
unfolding ingest
ingest-queued_after p t k = ingest_all-queued_after t.generation p t.decisions k

-- A closed window has no queued action and no number left, and no other window loses either.
pub forget_window-gone :
    (p : PendingResizes) (id k : WindowId)
    → (OrdMap.get k (forget_window p id).pending
        ≡ (if k == id then none else OrdMap.get k p.pending))
      × (OrdMap.get k (forget_window p id).latest_generation
          ≡ (if k == id then none else OrdMap.get k p.latest_generation))
unfolding forget_window
forget_window-gone p id k =
    (OrdMap.get-remove id k p.pending, OrdMap.get-remove id k p.latest_generation)
