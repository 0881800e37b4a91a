-- ===== src/Transition/Lawful.antt =====
-- Every width that transition.rs asks for comes from a rule of the configuration.
use melibea.Base.{
  ℕ, ◌≡◌, refl, inl, inr, Option, none, some, get_elem?, All, All-append, All-map, ◌=?◌, option_eq,
  nat_eq, Bool-cases,
}
use melibea.Base.OrdMap
use melibea.Attention.{Proportion, WidthPolicy, width_for}
use melibea.Config.{Config, AttentionRule}
use melibea.Transition.{
  WindowId, FocusState, is_focused, focused, unfocused, resize, FocusDecision, FocusTransition,
  AttentionEngine, decision_for, decide_option, observe_focus, reevaluate_focus, synchronize_focus,
  state_under, next_generation,
}
use melibea.Transition.Decisions.{decision-resize}

-- The width that some rule has for the state.
abbrev pub IsRuleWidth : Config → FocusState → Proportion → Type 0
IsRuleWidth config state width =
    (index : ℕ) × (rule : AttentionRule) × (get_elem? config.attention index ≡ some rule)
    × (width_for rule.policy (is_focused state) ≡ WidthPolicy.proportion width)

abbrev pub IsLawful : Config → FocusDecision → Type 0
IsLawful config d =
    (index : ℕ) (width : Proportion)
    → d.outcome ≡ resize index width
    → IsRuleWidth config d.state width

abbrev pub IsLawfulTransition : Config → FocusTransition → Type 0
IsLawfulTransition config t = All (IsLawful config) t.decisions

decision_for-IsLawful :
    (e : AttentionEngine) (id : WindowId) (state : FocusState)
    → IsLawful e.config (decision_for e id state)
unfolding decision_for
decision_for-IsLawful e id state index width h =
    let (window, rule, w) = (decision-resize e id state index width).0 h in
    (index, rule, w.first.found, w.policy)

decide_option-IsLawful :
    (e : AttentionEngine) (id : Option WindowId) (state : FocusState)
    → All (IsLawful e.config) (decide_option e id state)
decide_option-IsLawful e none state = tt
decide_option-IsLawful e (some id) state = (decision_for-IsLawful e id state, tt)

-- An engine that keeps the configuration, and a transition of it.
abbrev pub IsLawfulStep : Config → AttentionEngine × FocusTransition → Type 0
IsLawfulStep config out = (out.0.config ≡ config) × IsLawfulTransition config out.1

pub observe_focus-IsLawfulStep :
    (e : AttentionEngine) (f : Option WindowId) → IsLawfulStep e.config (observe_focus e f)
unfolding observe_focus next_generation
observe_focus-IsLawfulStep e f = elim (Bool-cases (e.focus =? f)) [
  | inl same ↦ (refl, rw same tt)
  | inr moved ↦ (
    refl,
    rw moved (
        All-append (IsLawful e.config) _ _ (decide_option-IsLawful _ e.focus unfocused)
          (decide_option-IsLawful _ f focused)),
  )
]

pub reevaluate_focus-IsLawfulStep :
    (e : AttentionEngine) → IsLawfulStep e.config (reevaluate_focus e)
unfolding reevaluate_focus next_generation
reevaluate_focus-IsLawfulStep e = (refl, decide_option-IsLawful _ e.focus focused)

pub synchronize_focus-IsLawfulStep :
    (e : AttentionEngine) (f : Option WindowId) → IsLawfulStep e.config (synchronize_focus e f)
unfolding synchronize_focus next_generation
synchronize_focus-IsLawfulStep e f = (
  refl,
  All-map (IsLawful e.config) _ (OrdMap.keys e.windows)
      (λ id. decision_for-IsLawful _ id (state_under f id)),
)
