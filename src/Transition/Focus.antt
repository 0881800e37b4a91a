-- ===== src/Transition/Focus.antt =====
-- The order of decisions, and the numbering of observations, over runs of transition.rs.
use melibea.Base.{
  ◌≡◌, refl, ◌∙◌, ap, ◌↔◌, inl, inr, List, [], ◌∷◌, ◌++◌, map, Option, none, some, arith,
  if◌then◌else◌, nat_eq, option_eq, option_beq_iff, saturating_suc, ◌==◌, Option-cases, All,
}
use melibea.Base.OrdMap
use melibea.Base.OrdMap.{OrdMap}
use melibea.Transition.{
  WindowId, FocusState, focused, unfocused, FocusDecision, AttentionEngine, decision_for,
  state_under, observe_focus, synchronize_focus,
}

-- The state and the decisions of a sequence of observed focuses.
unfoldable pub observe_all :
    AttentionEngine → List (Option WindowId) → AttentionEngine × List FocusDecision
observe_all e [] = (e, [])
observe_all e (f ∷ fs) =
    let (after, transition) = observe_focus e f in
    let (last, decisions) = observe_all after fs in (last, transition.decisions ++ decisions)

-- One decision read as a move of focus: a window loses it only if it has it, and gains it only if no
-- window has it.
abbrev pub move_focus : Option WindowId → FocusState → WindowId → Option (Option WindowId)
move_focus none focused id = some (some id)
move_focus (some held) focused id = none
move_focus none unfocused id = none
move_focus (some held) unfocused id = if held == id then some none else none

unfoldable pub follow : Option WindowId → List FocusDecision → Option (Option WindowId)
follow held [] = some held
follow held (d ∷ ds) = elim (move_focus held d.state d.window_id) [
  | none ↦ none
  | some next ↦ follow next ds
]

follow-append :
    (held next : Option WindowId) (ds es : List FocusDecision)
    → follow held ds ≡ some next
    → follow held (ds ++ es) ≡ follow next es
unfolding follow
follow-append held next [] es h = ground arith
follow-append held next (d ∷ ds) es h = elim (Option-cases (move_focus held d.state d.window_id)) [
  | inl stop ↦ absurd (ground arith)
  | inr (m, go) ↦ ground (arith, follow-append m next ds es)
]

observe-follow :
    (e : AttentionEngine) (f : Option WindowId)
    → follow e.focus (observe_focus e f).1.decisions ≡ some f
unfolding follow observe_focus decision_for
observe-follow e f = ground (arith, option_beq_iff e.focus f)

-- Over any sequence of observed focuses the decisions are the moves of one focus: each window that
-- loses focus held it, none gains it while another holds it, and the moves end at the focus that the
-- engine then holds.
pub observe_all-follow :
    (e : AttentionEngine) (fs : List (Option WindowId))
    → follow e.focus (observe_all e fs).1 ≡ some (observe_all e fs).0.focus
unfolding observe_all observe_focus
observe_all-follow e [] = unfold follow in refl
observe_all-follow e (f ∷ fs) =
    follow-append e.focus f (observe_focus e f).1.decisions _ (observe-follow e f)
    ∙ observe_all-follow (observe_focus e f).0 fs

-- Observing the focus that is already held asks for nothing, and still takes a new number.
pub observe_focus_again :
    (e : AttentionEngine)
    → ((observe_focus e e.focus).1.decisions ≡ [])
      × ((observe_focus e e.focus).1.generation ≡ saturating_suc e.generation)
      × ((observe_focus e e.focus).0.windows ≡ e.windows)
unfolding observe_focus
observe_focus_again e = (ground (arith, option_beq_iff e.focus e.focus), refl, refl)

-- The windows that a list of decisions is about.
abbrev pub decided : List FocusDecision → List WindowId
decided [] = []
decided (d ∷ ds) = d.window_id ∷ decided ds

-- A decision of an engine about a window, in the state that the current focus gives it.
abbrev pub Follows : AttentionEngine → Option WindowId → FocusDecision → Type 0
Follows e current d =
    ((d.state ≡ focused) ↔ (current ≡ some d.window_id)) × (d ≡ decision_for e d.window_id d.state)

module _ (e : AttentionEngine) (current : Option WindowId) where
  abbrev decide_all : List WindowId → List FocusDecision
  decide_all = map (λ id. decision_for e id (state_under current id))

  decided-decide_all : (ids : List WindowId) → decided (decide_all ids) ≡ ids
  unfolding decision_for
  decided-decide_all [] = refl
  decided-decide_all (id ∷ ids) = ap (◌∷◌ id) (decided-decide_all ids)

  decide_all-Follows : (ids : List WindowId) → All (Follows e current) (decide_all ids)
  unfolding decision_for
  decide_all-Follows [] = tt
  decide_all-Follows (id ∷ ids) = (
    (
      (
        λ h. ground (arith, option_beq_iff (some id) current),
        λ h. ground (arith, option_beq_iff (some id) current),
      ),
      refl,
    ),
    decide_all-Follows ids,
  )

-- A full snapshot decides about every registered window, once and in ascending order: as focused
-- about the window that the snapshot names, as unfocused about each other one.
pub synchronize-Follows :
    (e : AttentionEngine) (current : Option WindowId)
    → (decided (synchronize_focus e current).1.decisions ≡ OrdMap.keys e.windows)
      × All
          (Follows (synchronize_focus e current).0 current)
          (synchronize_focus e current).1.decisions
      × ((synchronize_focus e current).0.focus ≡ current)
unfolding synchronize_focus
synchronize-Follows e current = (
  decided-decide_all _ current (OrdMap.keys e.windows),
  decide_all-Follows _ current (OrdMap.keys e.windows),
  refl,
)
