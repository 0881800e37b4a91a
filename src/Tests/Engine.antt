-- ===== src/Tests/Engine.antt =====
-- transition.rs and executor.rs.
use melibea.Base.{ℕ, ◌≡◌, refl, [], ◌∷◌, none, some, arith, ◌⊎◌, length, ◌≤◌}
use melibea.Base.OrdMap
use mathlib.Core.Option
use melibea.Attention.{width_for}
use melibea.Config.{resolve, resolve_from, rule_matches}
use melibea.Transition.{
  FocusState, focused, unfocused, resize, unmanaged, DecisionOutcome, FocusDecision,
  FocusTransition, observe_focus, synchronize_focus, remove_window, decision_for, new_engine,
}
use melibea.Transition.Focus.{follow, observe_all, observe_all-follow, decided, synchronize-Follows}
use melibea.Transition.Registry.{
  observe, upsert, call, run_calls, IsValid, run_calls-new-IsValid, call-generation, remove-forgets,
}
use melibea.Executor.{
  ResizeAction, PendingResizes, no_resizes, pop_next, ingest, ingest_decision, max_by_key,
  forget_window,
}
use melibea.Executor.Consistency.{
  IsConsistent, no_resizes-IsConsistent, after_call, after_call-IsConsistent, ingests,
}
use melibea.Executor.Ingest.{queued_after, last_for, ingest-queued_after, forget_window-gone}
use melibea.Executor.Pop.{Pops, pop_next-Pops, pop_all, Drains, pop_all-Drains}
use melibea.Tests.Fixtures.{half, tenth, nine_tenths, fraction, config, window, engine}

program : Unit {0}
unfolding observe_focus synchronize_focus decision_for resolve resolve_from rule_matches width_for
    OrdMap.get OrdMap.insert OrdMap.remove ingest ingest_decision pop_next max_by_key
program = tt

abbrev decision : ℕ → FocusState → DecisionOutcome → FocusDecision
decision id state outcome = record { window_id = id; state = state; outcome = outcome }

-- `models_editor_terminal_editor_sequence`
editor_terminal_editor :
    (observe_all engine (some 20 ∷ some 10 ∷ some 20 ∷ [])).1
    ≡ decision 20 focused (resize 1 (fraction nine_tenths))
      ∷ decision 20 unfocused (DecisionOutcome.preserve 1)
      ∷ decision 10 focused (resize 0 (fraction half))
      ∷ decision 10 unfocused (resize 0 (fraction tenth))
      ∷ decision 20 focused (resize 1 (fraction nine_tenths))
      ∷ []
unfolding program observe_all
editor_terminal_editor = refl

observe_all-follow_example :
    follow none (observe_all engine (some 20 ∷ some 10 ∷ [])).1
    ≡ some (observe_all engine (some 20 ∷ some 10 ∷ [])).0.focus
observe_all-follow_example = observe_all-follow engine (some 20 ∷ some 10 ∷ [])

synchronize-Follows_example :
    decided (synchronize_focus engine (some 20)).1.decisions ≡ 10 ∷ 20 ∷ 30 ∷ []
synchronize-Follows_example = (synchronize-Follows engine (some 20)).0

run_calls_example :
    IsValid (run_calls (new_engine config) (upsert (window 10 "kitty") ∷ observe (some 10) ∷ []))
run_calls_example =
    run_calls-new-IsValid config (upsert (window 10 "kitty") ∷ observe (some 10) ∷ [])

call-generation_example : engine.generation ≤ (call engine (observe (some 10))).0.generation
call-generation_example = (call-generation engine (observe (some 10)) (omega arith)).0

remove-forgets_example : (remove_window (record engine { focus = some 10 }) 10).0.focus ≡ none
remove-forgets_example = (remove-forgets (record engine { focus = some 10 }) 10).2 refl

-- A contraction of 10 and an expansion of 20, both of observation 3.
abbrev swap : FocusTransition
swap = record {
  generation = 3;
  previous = some 10;
  current = some 20;
  decisions =
      decision 10 unfocused (resize 0 (fraction tenth))
      ∷ decision 20 focused (resize 1 (fraction nine_tenths))
      ∷ [];
}

abbrev queue : PendingResizes
queue = ingest no_resizes swap

queue-IsConsistent : IsConsistent queue
unfolding after_call
queue-IsConsistent = after_call-IsConsistent no_resizes (ingests swap) no_resizes-IsConsistent

after_call-IsConsistent_example : IsConsistent (after_call no_resizes (ingests swap))
after_call-IsConsistent_example =
    after_call-IsConsistent no_resizes (ingests swap) no_resizes-IsConsistent

focused_first : Option.map (λ a. a.window_id) (pop_next queue).1 ≡ some 20
unfolding program
focused_first = refl

ingest-queued_after_example :
    OrdMap.get 10
      (ingest queue
        (record swap { generation = 2; decisions = decision 10 focused unmanaged ∷ [] })).pending
    ≡ queued_after 2 queue 10 (last_for 10 (decision 10 focused unmanaged ∷ []))
ingest-queued_after_example =
    ingest-queued_after queue
      (record swap { generation = 2; decisions = decision 10 focused unmanaged ∷ [] }) 10

pop_next-Pops_example :
    ((queue.pending ≡ []) × ((pop_next queue).1 ≡ none))
    ⊎ ((best : ResizeAction) × ((pop_next queue).1 ≡ some best) × Pops queue best)
pop_next-Pops_example = pop_next-Pops queue queue-IsConsistent

pop_all-Drains_example :
    Drains queue (pop_all (length queue.pending) queue).0 (pop_all (length queue.pending) queue).1
pop_all-Drains_example = pop_all-Drains queue queue-IsConsistent

forget_window-gone_example :
    OrdMap.get 20 (forget_window queue 10).pending ≡ OrdMap.get 20 queue.pending
forget_window-gone_example = (forget_window-gone queue 10 20).0
