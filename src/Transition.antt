-- ===== src/Transition.antt =====
-- transition.rs: the focus engine, which turns observed focus into decisions about widths.
pub mod Decisions
pub mod Lawful
pub mod Focus
pub mod Registry
use melibea.Base.{
  ℕ, ◌≡◌, Bool, true, false, String, List, [], ◌∷◌, ◌++◌, map, Option, none, some, if◌then◌else◌,
  is_some, ◌=?◌, nat_eq, option_eq, saturating_suc,
}
use melibea.Base.OrdMap
use melibea.Base.OrdMap.{OrdMap}
use melibea.Attention.{Proportion, WidthPolicy, width_for}
use melibea.Config.{Config, WindowIdentity, ResolvedRule, resolve}

-- `WindowId(u64)`
abbrev pub WindowId : Type 0
WindowId = ℕ

pub data ExclusionReason : Type 0 where
  floating : ExclusionReason

pub data WindowEligibility : Type 0 where
  managed : WindowEligibility
  excluded : ExclusionReason → WindowEligibility

pub record WindowRecord : Type 0 where
  pub id : WindowId
  pub app_id : Option String
  pub title : Option String
  pub eligibility : WindowEligibility

-- `WindowRecord::identity`
abbrev pub identity : WindowRecord → WindowIdentity
identity w = record { app_id = w.app_id; title = w.title }

pub data FocusState : Type 0 where
  focused unfocused : FocusState

-- `FocusState::is_focused`
abbrev pub is_focused : FocusState → Bool
is_focused focused = true
is_focused unfocused = false

pub data DecisionOutcome : Type 0 where
  resize : ℕ → Proportion → DecisionOutcome
  preserve : ℕ → DecisionOutcome
  unmanaged : DecisionOutcome
  excluded : ExclusionReason → DecisionOutcome
  unknown_window : DecisionOutcome

pub record FocusDecision : Type 0 where
  pub window_id : WindowId
  pub state : FocusState
  pub outcome : DecisionOutcome

pub record FocusTransition : Type 0 where
  pub generation : ℕ
  pub previous : Option WindowId
  pub current : Option WindowId
  pub decisions : List FocusDecision

pub record AttentionEngine : Type 0 where
  pub config : Config
  pub windows : OrdMap WindowRecord
  pub focus : Option WindowId
  pub generation : ℕ

-- `AttentionEngine::new`
unfoldable pub new_engine : Config → AttentionEngine
new_engine config = record { config = config; windows = []; focus = none; generation = 0 }

unfoldable pub upsert_window : AttentionEngine → WindowRecord → AttentionEngine
upsert_window e window = record e { windows = OrdMap.insert window.id window e.windows }

unfoldable pub remove_window : AttentionEngine → WindowId → AttentionEngine × Bool
remove_window e window_id = (
  record e {
    focus = if e.focus =? some window_id then none else e.focus;
    windows = OrdMap.remove window_id e.windows;
  },
  OrdMap.contains_key window_id e.windows,
)

unfoldable pub next_generation : AttentionEngine → AttentionEngine × ℕ
next_generation e =
    let generation = saturating_suc e.generation in
    (record e { generation = generation }, generation)

-- What a width policy says of a rule's window.
unfoldable pub policy_outcome : ℕ → WidthPolicy → DecisionOutcome
policy_outcome rule_index (WidthPolicy.proportion width) = resize rule_index width
policy_outcome rule_index WidthPolicy.preserve = preserve rule_index

unfoldable pub resolved_outcome : Option ResolvedRule → FocusState → DecisionOutcome
unfolding policy_outcome width_for
resolved_outcome none state = unmanaged
resolved_outcome (some resolved) state =
    policy_outcome resolved.index (width_for resolved.rule.policy (is_focused state))

unfoldable pub eligible_outcome :
    Config → WindowEligibility → WindowIdentity → FocusState → DecisionOutcome
unfolding resolved_outcome
eligible_outcome config (WindowEligibility.excluded reason) window state =
    DecisionOutcome.excluded reason
eligible_outcome config managed window state = resolved_outcome (resolve config window) state

unfoldable pub record_outcome : Config → Option WindowRecord → FocusState → DecisionOutcome
unfolding eligible_outcome
record_outcome config none state = unknown_window
record_outcome config (some window) state =
    eligible_outcome config window.eligibility (identity window) state

unfoldable pub decision_for : AttentionEngine → WindowId → FocusState → FocusDecision
unfolding record_outcome
decision_for e window_id state = record {
  window_id = window_id;
  state = state;
  outcome = record_outcome e.config (OrdMap.get window_id e.windows) state;
}

-- The decision about a window that may be absent.
abbrev pub decide_option : AttentionEngine → Option WindowId → FocusState → List FocusDecision
decide_option e none state = []
decide_option e (some window_id) state = decision_for e window_id state ∷ []

unfoldable pub observe_focus : AttentionEngine → Option WindowId → AttentionEngine × FocusTransition
unfolding next_generation
observe_focus e current =
    let (e', generation) = next_generation e in
    let after : AttentionEngine = record e' { focus = current } in
    (
      after,
      record {
        generation = generation;
        previous = e.focus;
        current = current;
        decisions =
            if e.focus =? current
            then []
            else decide_option after e.focus unfocused ++ decide_option after current focused;
      },
    )

unfoldable pub reevaluate_focus : AttentionEngine → AttentionEngine × FocusTransition
unfolding next_generation
reevaluate_focus e =
    let (after, generation) = next_generation e in
    (
      after,
      record {
        generation = generation;
        previous = e.focus;
        current = e.focus;
        decisions = decide_option after e.focus focused;
      },
    )

-- The state that a full snapshot gives a window.
abbrev pub state_under : Option WindowId → WindowId → FocusState
state_under current window_id = if some window_id =? current then focused else unfocused

unfoldable pub synchronize_focus :
    AttentionEngine → Option WindowId → AttentionEngine × FocusTransition
unfolding next_generation
synchronize_focus e current =
    let (e', generation) = next_generation e in
    let after : AttentionEngine = record e' { focus = current } in
    (
      after,
      record {
        generation = generation;
        previous = e.focus;
        current = current;
        decisions =
            map (λ window_id. decision_for after window_id (state_under current window_id))
              (OrdMap.keys e.windows);
      },
    )
