-- ===== src/Transition/Registry.antt =====
-- The registry of windows and the numbering of observations, over runs of transition.rs.
use melibea.Base.{
  ◌≢◌, ◌+◌, ◌≤◌, ◌≡◌, refl, ◌⊎◌, List, [], ◌∷◌, Option, none, some, arith, if◌then◌else◌, nat_eq,
  option_eq, option_beq_iff, u64_max, ◌==◌,
}
use melibea.Base.OrdMap
use melibea.Base.OrdMap.{OrdMap}
use melibea.Config.{Config}
use melibea.Transition.{
  WindowId, WindowRecord, FocusTransition, AttentionEngine, new_engine, upsert_window,
  remove_window, observe_focus, reevaluate_focus, synchronize_focus,
}

-- The calls that an engine takes.
pub data EngineCall : Type 0 where
  upsert : WindowRecord → EngineCall
  remove : WindowId → EngineCall
  observe : Option WindowId → EngineCall
  reevaluate : EngineCall
  synchronize : Option WindowId → EngineCall

abbrev observed : AttentionEngine × FocusTransition → AttentionEngine × Option FocusTransition
observed (e, t) = (e, some t)

pub call : AttentionEngine → EngineCall → AttentionEngine × Option FocusTransition
call e (upsert window) = (upsert_window e window, none)
call e (remove id) = ((remove_window e id).0, none)
call e (observe current) = observed (observe_focus e current)
call e reevaluate = observed (reevaluate_focus e)
call e (synchronize current) = observed (synchronize_focus e current)

pub run_calls : AttentionEngine → List EngineCall → AttentionEngine
run_calls e [] = e
run_calls e (c ∷ cs) = run_calls (call e c).0 cs

-- Windows stand in ascending order, each under its own id, and the number fits its 64 bits.
pub record IsValid (e : AttentionEngine) : Type 0 where
  pub sorted : OrdMap.IsSorted e.windows
  pub keyed : (k : WindowId) (r : WindowRecord) → OrdMap.get k e.windows ≡ some r → r.id ≡ k
  pub bounded : e.generation ≤ u64_max

pub upsert-IsValid :
    (e : AttentionEngine) (w : WindowRecord) → IsValid e → IsValid (upsert_window e w)
unfolding upsert_window
upsert-IsValid e w v = record {
  sorted = OrdMap.insert-IsSorted w.id w e.windows v.sorted;
  keyed = λ k r h. ground (arith, OrdMap.get-insert w.id k w e.windows, v.keyed k r);
  bounded = v.bounded;
}

pub remove-IsValid :
    (e : AttentionEngine) (id : WindowId) → IsValid e → IsValid (remove_window e id).0
unfolding remove_window
remove-IsValid e id v = record {
  sorted = OrdMap.remove-IsSorted id e.windows v.sorted;
  keyed = λ k r h. ground (arith, OrdMap.get-remove id k e.windows, v.keyed k r);
  bounded = v.bounded;
}

pub call-IsValid : (e : AttentionEngine) (c : EngineCall) → IsValid e → IsValid (call e c).0
unfolding call observe_focus reevaluate_focus synchronize_focus
call-IsValid e (upsert window) v = upsert-IsValid e window v
call-IsValid e (remove id) v = remove-IsValid e id v
call-IsValid e (observe current) v = record {
  sorted = v.sorted;
  keyed = v.keyed;
  bounded = ground arith;
}
call-IsValid e reevaluate v = record { sorted = v.sorted; keyed = v.keyed; bounded = ground arith }
call-IsValid e (synchronize current) v = record {
  sorted = v.sorted;
  keyed = v.keyed;
  bounded = ground arith;
}

pub observe-IsValid :
    (e : AttentionEngine) (current : Option WindowId)
    → IsValid e
    → IsValid (observe_focus e current).0
unfolding call
observe-IsValid e current v = call-IsValid e (observe current) v

pub reevaluate-IsValid : (e : AttentionEngine) → IsValid e → IsValid (reevaluate_focus e).0
unfolding call
reevaluate-IsValid e v = call-IsValid e reevaluate v

pub synchronize-IsValid :
    (e : AttentionEngine) (current : Option WindowId)
    → IsValid e
    → IsValid (synchronize_focus e current).0
unfolding call
synchronize-IsValid e current v = call-IsValid e (synchronize current) v

run_calls-IsValid :
    (e : AttentionEngine) (cs : List EngineCall) → IsValid e → IsValid (run_calls e cs)
unfolding run_calls
run_calls-IsValid e [] v = v
run_calls-IsValid e (c ∷ cs) v = run_calls-IsValid (call e c).0 cs (call-IsValid e c v)

pub new-IsValid : (config : Config) → IsValid (new_engine config)
unfolding new_engine OrdMap.get
new-IsValid config = record { sorted = tt; keyed = λ k r h. ground arith; bounded = omega arith }

-- After any calls on a new engine its windows stand in ascending order, each under its own id, and
-- the observation number has not passed the largest 64-bit value.
pub run_calls-new-IsValid :
    (config : Config) (cs : List EngineCall) → IsValid (run_calls (new_engine config) cs)
run_calls-new-IsValid config cs = run_calls-IsValid (new_engine config) cs (new-IsValid config)

-- A call never lowers the observation number. A transition carries the engine's new number, which is
-- one above the old one until the largest 64-bit value is reached.
pub call-generation :
    (e : AttentionEngine) (c : EngineCall)
    → e.generation ≤ u64_max
    → (e.generation ≤ (call e c).0.generation)
      × ((t : FocusTransition)
          → (call e c).1 ≡ some t
          → (t.generation ≡ (call e c).0.generation)
            × ((t.generation ≡ e.generation + 1) ⊎ (e.generation ≡ u64_max)))
unfolding call upsert_window remove_window observe_focus reevaluate_focus synchronize_focus
call-generation e (upsert window) h = (omega arith, λ t p. ground arith)
call-generation e (remove id) h = (omega arith, λ t p. ground arith)
call-generation e (observe current) h = (ground arith, λ t p. ground arith)
call-generation e reevaluate h = (ground arith, λ t p. ground arith)
call-generation e (synchronize current) h = (ground arith, λ t p. ground arith)

-- Removing a window forgets it and no other and reports whether it was known. If the removed window
-- had the focus, no window has it afterwards; otherwise the focus stays as it was.
pub remove-forgets :
    (e : AttentionEngine) (id : WindowId)
    → ((k : WindowId)
        → OrdMap.get k (remove_window e id).0.windows
          ≡ (if k == id then none else OrdMap.get k e.windows))
      × ((remove_window e id).1 ≡ OrdMap.contains_key id e.windows)
      × (e.focus ≡ some id → (remove_window e id).0.focus ≡ none)
      × ((e.focus ≢ some id) → (remove_window e id).0.focus ≡ e.focus)
unfolding remove_window
remove-forgets e id = (
  λ k. OrdMap.get-remove id k e.windows,
  refl,
  λ h. ground (arith, option_beq_iff e.focus (some id)),
  λ h. ground (arith, option_beq_iff e.focus (some id)),
)
