-- ===== src/Transition/Decisions.antt =====
-- When transition.rs asks for a width.
use melibea.Base.{ℕ, ◌≡◌, ◌↔◌, some, arith, Option-cases, inl, inr}
use melibea.Base.OrdMap
use melibea.Attention.{Proportion, WidthPolicy, width_for}
use melibea.Config.{AttentionRule, resolve}
use melibea.Config.Resolve.{IsFirstMatch, resolve-first}
use melibea.Transition.{
  WindowId, WindowRecord, managed, identity, FocusState, is_focused, resize, AttentionEngine,
  decision_for,
}

-- The reasons for which a window gets a width.
pub record Warrants (e : AttentionEngine) (id : WindowId) (state : FocusState) (index : ℕ)
    (width : Proportion) (window : WindowRecord) (rule : AttentionRule) : Type 0 where
  pub known : OrdMap.get id e.windows ≡ some window
  pub eligible : window.eligibility ≡ managed
  pub first :
      IsFirstMatch e.config.attention (identity window) (record { index = index; rule = rule })
  pub policy : width_for rule.policy (is_focused state) ≡ WidthPolicy.proportion width

decision-Warrants :
    (e : AttentionEngine) (id : WindowId) (state : FocusState) (index : ℕ) (width : Proportion)
    → (decision_for e id state).outcome ≡ resize index width
    → (window : WindowRecord) × (rule : AttentionRule) × Warrants e id state index width window rule
unfolding decision_for
decision-Warrants e id state index width h = elim (Option-cases (OrdMap.get id e.windows)) [
  | inl absent ↦ absurd (ground arith)
  | inr (window, known) ↦ elim (Option-cases (resolve e.config (identity window))) [
    | inl unmatched ↦ absurd (ground arith)
    | inr (r, matched) ↦ (
      window,
      r.rule,
      record {
        known = known;
        eligible = ground arith;
        first = ((resolve-first e.config (identity window)).0 _).0 (ground arith);
        policy = ground arith;
      },
    )
  ]
]

pub decision-resize :
    (e : AttentionEngine) (id : WindowId) (state : FocusState) (index : ℕ) (width : Proportion)
    → ((decision_for e id state).outcome ≡ resize index width) ↔ (
        (window : WindowRecord) × (rule : AttentionRule) × Warrants e id state index width window
          rule)
unfolding decision_for
decision-resize e id state index width = (
  decision-Warrants e id state index width,
  λ (window, rule, w). ground (
    arith,
    w.known,
    w.eligible,
    w.policy,
    ((resolve-first e.config (identity window)).0 (record { index = index; rule = rule })).1
        w.first,
  ),
)
