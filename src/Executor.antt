-- ===== src/Executor.antt =====
-- executor.rs: the latest unexecuted resize of each window.
pub mod Consistency
pub mod Ingest
pub mod Best
pub mod Pop
pub mod Lawful
use melibea.Base.{
  ℕ, ◌≡◌, Bool, true, false, List, [], ◌∷◌, Option, none, some, if◌then◌else◌, ltb, ◌==◌, ◌||◌,
  ◌&&◌, not, is_empty, is_some,
}
use melibea.Base.OrdMap
use melibea.Base.OrdMap.{OrdMap}
use melibea.Attention.{Proportion}
use melibea.Transition.{
  WindowId, DecisionOutcome, resize, FocusState, is_focused, FocusDecision, FocusTransition,
}

pub record ResizeAction : Type 0 where
  pub generation : ℕ
  pub window_id : WindowId
  pub state : FocusState
  pub width : Proportion

pub record PendingResizes : Type 0 where
  pub latest_generation : OrdMap ℕ
  pub pending : OrdMap ResizeAction

-- `PendingResizes::default`
abbrev pub no_resizes : PendingResizes
no_resizes = record { latest_generation = []; pending = [] }

-- `u64::default()` where there is no entry.
abbrev pub or_default : Option ℕ → ℕ
or_default none = 0
or_default (some n) = n

-- What the `match` on the outcome does to the queue.
unfoldable pub settle :
    ℕ → FocusDecision → DecisionOutcome → OrdMap ResizeAction → OrdMap ResizeAction
settle generation d (resize rule_index width) pending =
    OrdMap.insert d.window_id
      (record { generation = generation; window_id = d.window_id; state = d.state; width = width })
      pending
settle generation d _ pending = OrdMap.remove d.window_id pending

-- One round of the loop of `ingest`. The entry that `or_default` makes stays when the decision is
-- stale.
unfoldable pub ingest_decision : ℕ → PendingResizes → FocusDecision → PendingResizes
unfolding settle
ingest_decision generation p d =
    let latest : ℕ = or_default (OrdMap.get d.window_id p.latest_generation) in
    if ltb generation latest
    then record p { latest_generation = OrdMap.insert d.window_id latest p.latest_generation }
    else record {
      latest_generation = OrdMap.insert d.window_id generation p.latest_generation;
      pending = settle generation d d.outcome p.pending;
    }

unfoldable pub ingest_all : ℕ → PendingResizes → List FocusDecision → PendingResizes
ingest_all generation p [] = p
ingest_all generation p (d ∷ ds) = ingest_all generation (ingest_decision generation p d) ds

-- `PendingResizes::ingest`
unfoldable pub ingest : PendingResizes → FocusTransition → PendingResizes
unfolding ingest_all
ingest p t = ingest_all t.generation p t.decisions

-- The key of `max_by_key`: `(generation, focused)` of `a` is below that of `b`.
abbrev pub key_lt : ResizeAction → ResizeAction → Bool
key_lt a b =
    ltb a.generation b.generation
    || (a.generation == b.generation && (not (is_focused a.state) && is_focused b.state))

-- `max_by_key` keeps the last of several greatest entries.
unfoldable pub max_from : ResizeAction → List ResizeAction → ResizeAction
max_from best [] = best
max_from best (a ∷ rest) = max_from (if key_lt a best then best else a) rest

unfoldable pub max_by_key : List ResizeAction → Option ResizeAction
unfolding max_from
max_by_key [] = none
max_by_key (a ∷ rest) = some (max_from a rest)

-- `PendingResizes::pop_next`
unfoldable pub pop_next : PendingResizes → PendingResizes × Option ResizeAction
pop_next p = elim (max_by_key (OrdMap.values p.pending)) [
  | none ↦ (p, none)
  | some best ↦ (
    record p { pending = OrdMap.remove best.window_id p.pending },
    OrdMap.get best.window_id p.pending,
  )
]

unfoldable pub forget_window : PendingResizes → WindowId → PendingResizes
forget_window p window_id = record {
  latest_generation = OrdMap.remove window_id p.latest_generation;
  pending = OrdMap.remove window_id p.pending;
}

unfoldable pub reset : PendingResizes → PendingResizes
reset p = no_resizes

-- `PendingResizes::is_empty`
abbrev pub no_pending : PendingResizes → Bool
no_pending p = is_empty p.pending
