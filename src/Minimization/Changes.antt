-- ===== src/Minimization/Changes.antt =====
-- The registry of minimization.rs over a sequence of events.
use melibea.Base.{
  ◌≤◌, ◌≡◌, refl, inl, inr, List, [], ◌∷◌, Option, none, some, list_eq, Bool-cases, Option-cases,
  u64_max, arith, subst, sym,
}
use melibea.Base.Vec.Keyed.{
  has, IsDistinct, replace-IsDistinct, without-IsDistinct, append-IsDistinct,
}
use melibea.Minimization.{
  MinimizedWindow, id_of, minimized_eq, MinimizationEvent, snapshot, minimized, metadata_changed,
  MinimizedRegistry, empty_registry, first_duplicate, apply,
}
use melibea.Minimization.Accounts.{
  expected, IsSound, Accounts, first_duplicate-IsDistinct, first_duplicate-some,
}
use melibea.Minimization.Reference.{apply-Accounts}

expected-IsDistinct :
    (ws : List MinimizedWindow) (e : MinimizationEvent)
    → IsSound e
    → IsDistinct id_of ws
    → IsDistinct id_of (expected ws e)
expected-IsDistinct ws (snapshot next) sound d = sound
expected-IsDistinct ws (minimized w) sound d = elim (Bool-cases (has id_of w.id ws)) [
  | inl old ↦ rw old (replace-IsDistinct id_of w ws d)
  | inr new ↦ rw new (append-IsDistinct id_of ws w d new)
]
expected-IsDistinct ws (metadata_changed w) sound d = replace-IsDistinct id_of w ws d
expected-IsDistinct ws (MinimizationEvent.restored id) sound d = without-IsDistinct id_of id ws d
expected-IsDistinct ws (MinimizationEvent.closed id) sound d = without-IsDistinct id_of id ws d

-- Whether an event is sound is decided by the loop over its ids.
pub IsSound-dec : (e : MinimizationEvent) → Dec (IsSound e)
IsSound-dec (snapshot next) = elim (Option-cases (first_duplicate [] next)) [
  | inl fresh ↦ yes (first_duplicate-IsDistinct [] next fresh)
  | inr (id, dup) ↦ no (first_duplicate-some next id dup)
]
IsSound-dec _ = yes tt

pub Accounts-IsDistinct :
    (r : MinimizedRegistry) (e : MinimizationEvent) (a : Accounts r e)
    → IsDistinct id_of r.windows
    → IsDistinct id_of a.after.windows
Accounts-IsDistinct r e a d = elim (IsSound-dec e) [
  | yes sound ↦
      subst (IsDistinct id_of) (sym (a.accepted sound).0) (expected-IsDistinct r.windows e sound d)
  | no unsound ↦ rw ((a.refused unsound).0) d
]

-- The registry after a sequence of events, errors ignored as the state is kept; `none` is a panic.
unfoldable pub apply_all : MinimizedRegistry → List MinimizationEvent → Option MinimizedRegistry
apply_all r [] = some r
apply_all r (e ∷ es) = elim (apply r e) [ none ↦ none | some (after, result) ↦ apply_all after es ]

apply_all-IsDistinct :
    (r : MinimizedRegistry) (es : List MinimizationEvent)
    → IsDistinct id_of r.windows
    → r.revision ≤ u64_max
    → (last : MinimizedRegistry) × (apply_all r es ≡ some last)
      × IsDistinct id_of last.windows
      × (r.revision ≤ last.revision)
      × (last.revision ≤ u64_max)
unfolding apply_all
apply_all-IsDistinct r [] d b = (r, refl, d, omega arith, b)
apply_all-IsDistinct r (e ∷ es) d b =
    let a = apply-Accounts r e d in
    let (last, run, distinct, up, top) =
      apply_all-IsDistinct a.after es (Accounts-IsDistinct r e a d) (ground (arith, a.numbered)) in
    (last, rw (a.returns, apply_all) run, distinct, ground (arith, a.numbered), top)

-- No sequence of events makes a new registry panic or hold an id twice, and from each event of it to
-- the next the revision never falls nor passes the largest 64-bit value.
pub registry-run :
    (before after : List MinimizationEvent)
    → (r last : MinimizedRegistry) × (apply_all empty_registry before ≡ some r)
      × (apply_all r after ≡ some last)
      × IsDistinct id_of r.windows
      × IsDistinct id_of last.windows
      × (r.revision ≤ last.revision)
      × (last.revision ≤ u64_max)
registry-run before after =
    let (r, run, d, up, top) = apply_all-IsDistinct empty_registry before tt (omega arith) in
    let (last, run', d', up', top') = apply_all-IsDistinct r after d top in
    (r, last, run, run', d, d', up', top')
