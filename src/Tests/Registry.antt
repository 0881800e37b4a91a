-- ===== src/Tests/Registry.antt =====
-- minimization.rs and protocol.rs.
use melibea.Base.{ℕ, ◌≡◌, ◌↔◌, ◌≤◌, refl, [], ◌∷◌, List, none, some, ok, err, u64_max}
use melibea.Base.Float.{zero_f64, is_finite, le_f64}
use melibea.Base.Vec.{insert_at, remove_at, set_at}
use melibea.Base.Vec.Keyed.{IsDistinct, position}
use melibea.Minimization.{
  MinimizedWindow, id_of, minimized, snapshot, MinimizationEvent, MinimizedRegistry, apply,
  empty_registry, first_duplicate, duplicate_window, replace_snapshot,
}
use melibea.Minimization.Accounts.{Accounts}
use melibea.Minimization.Reference.{apply-Accounts}
use melibea.Minimization.Changes.{apply_all, registry-run}
use melibea.Protocol.Anchor.{BubbleAnchor, IsSafe, validate_anchor, validate_anchor-exact, disabled}
use melibea.Protocol.Request.{
  validate, Admits, v2_request, minimize_with_transition, validate-Admits,
}
use melibea.Protocol.Message.{Window, window_id, WindowChange, moved, added, removed, updated}
use melibea.Protocol.Diff.{
  diff_windows, apply_changes, prune, place, place_all, diff_progress, move_to, refresh,
}
use melibea.Protocol.Diff.Exact.{diff_windows-exact}
use melibea.Tests.Fixtures.{half, arithmetic}

parked : ℕ → MinimizedWindow
parked id = record { id = id; app_id = some "kitty"; title = none }

abbrev two_parked : MinimizedRegistry
two_parked = record { windows = parked 1 ∷ parked 2 ∷ []; revision = 7 }

two_parked-IsDistinct : IsDistinct id_of two_parked.windows
unfolding parked
two_parked-IsDistinct = (refl, (refl, tt))

apply-Accounts_example : Accounts two_parked (snapshot (parked 3 ∷ parked 3 ∷ []))
apply-Accounts_example =
    apply-Accounts two_parked (snapshot (parked 3 ∷ parked 3 ∷ [])) two_parked-IsDistinct

-- `snapshot_rejects_duplicate_window_without_partial_apply` of the unit tests.
duplicate_refused :
    apply two_parked (snapshot (parked 3 ∷ parked 3 ∷ []))
    ≡ some (two_parked, err (duplicate_window 3))
unfolding apply replace_snapshot first_duplicate parked
duplicate_refused = refl

registry-run_example :
    (r last : MinimizedRegistry) × (apply_all empty_registry (minimized (parked 1) ∷ []) ≡ some r)
    × (apply_all r (minimized (parked 2) ∷ MinimizationEvent.restored 1 ∷ []) ≡ some last)
    × IsDistinct id_of r.windows
    × IsDistinct id_of last.windows
    × (r.revision ≤ last.revision)
    × (last.revision ≤ u64_max)
registry-run_example =
    registry-run (minimized (parked 1) ∷ [])
      (minimized (parked 2) ∷ MinimizationEvent.restored 1 ∷ [])

anchor : BubbleAnchor
anchor = record { output = "DP-1"; x = zero_f64; y = zero_f64; width = half; height = half }

accepted : validate_anchor arithmetic anchor ≡ ok tt
unfolding validate_anchor anchor is_finite le_f64
accepted = refl

validate_anchor-exact_example : IsSafe arithmetic anchor
validate_anchor-exact_example = (validate_anchor-exact arithmetic anchor).0 accepted

validate-Admits_example :
    (validate arithmetic (v2_request (minimize_with_transition (some 4) disabled)) ≡ ok tt)
    ↔ Admits arithmetic (v2_request (minimize_with_transition (some 4) disabled))
validate-Admits_example =
    (validate-Admits arithmetic (v2_request (minimize_with_transition (some 4) disabled))).0

shown : ℕ → Window
shown id = record { id = id; app_id = some "kitty"; title = none; icon_name = none }

renamed : ℕ → Window
renamed id = record { id = id; app_id = some "kitty"; title = some "new"; icon_name = none }

abbrev before : List Window
before = shown 1 ∷ shown 2 ∷ shown 3 ∷ []

abbrev after : List Window
after = renamed 3 ∷ shown 1 ∷ shown 4 ∷ []

-- A removal, a move, an update and an addition.
reordered :
    diff_windows before after
    ≡ some (removed 1 2 ∷ moved 3 1 0 ∷ updated 0 (renamed 3) ∷ added 2 (shown 4) ∷ [])
unfolding diff_windows diff_progress prune place_all place move_to refresh shown renamed position
    insert_at remove_at set_at
reordered = refl

before-IsDistinct : IsDistinct window_id before
unfolding shown
before-IsDistinct = (refl, (refl, (refl, tt)))

after-IsDistinct : IsDistinct window_id after
unfolding shown renamed
after-IsDistinct = (refl, (refl, (refl, tt)))

diff_windows-exact_example :
    (changes : List WindowChange) × (diff_windows before after ≡ some changes)
    × (diff_progress before after ≡ some (after, changes))
    × (apply_changes changes before ≡ some after)
diff_windows-exact_example = diff_windows-exact before after before-IsDistinct after-IsDistinct
