-- ===== src/Minimization/Accounts.antt =====
-- What an event leaves of the registry of minimization.rs, in a description that knows no positions.
use melibea.Base.{
  ◌≡◌, ◌≢◌, refl, ◌⊎◌, inl, inr, Bool-cases, true, false, List, [], ◌∷◌, ◌++◌, none, some, Result,
  ok, err, if◌then◌else◌, ◌==◌, ◌=?◌, beq_refl, any, list_eq, saturating_suc, arith, list_beq_iff,
}
use melibea.Base.Vec.Keyed.{has, IsDistinct, replace, without}
use melibea.Transition.{WindowId}
use melibea.Minimization.{
  MinimizedWindow, id_of, minimized_eq, MinimizationEvent, snapshot, minimized, metadata_changed,
  RegistryChange, MinimizationError, duplicate_window, MinimizedRegistry, advance, first_duplicate,
  apply,
}

-- The windows after an event: a snapshot is taken as it stands, a minimized window is replaced where
-- it stands or joins at the end, changed metadata is replaced where it stands, a restored or closed
-- window is dropped.
abbrev pub expected : List MinimizedWindow → MinimizationEvent → List MinimizedWindow
expected ws (snapshot next) = next
expected ws (minimized w) = if has id_of w.id ws then replace id_of w ws else ws ++ w ∷ []
expected ws (metadata_changed w) = replace id_of w ws
expected ws (MinimizationEvent.restored id) = without id_of id ws
expected ws (MinimizationEvent.closed id) = without id_of id ws

-- The event is no snapshot that names a window twice.
abbrev pub IsSound : MinimizationEvent → Type 0
IsSound (snapshot next) = IsDistinct id_of next
IsSound _ = Unit {0}

abbrev pub snapshot_of : MinimizationEvent → List MinimizedWindow
snapshot_of (snapshot next) = next
snapshot_of _ = []

-- The window occurs in the list a second time.
abbrev pub IsRepeated : WindowId → List MinimizedWindow → Type 0
IsRepeated id [] = ⊥
IsRepeated id (w ∷ ws) = ((w.id ≡ id) × (has id_of id ws ≡ true)) ⊎ IsRepeated id ws

-- One call: it does not panic; a snapshot that names a window twice changes nothing and is reported
-- with a window that it names twice; any other event leaves the expected windows, and a revision that is one
-- higher exactly if these differ from the old ones.
pub record Accounts (r : MinimizedRegistry) (e : MinimizationEvent) : Type 0 where
  pub after : MinimizedRegistry
  pub result : Result MinimizationError RegistryChange
  pub returns : apply r e ≡ some (after, result)
  pub refused :
      (IsSound e → ⊥)
      → (after ≡ r)
        × ((id : WindowId) × (result ≡ err (duplicate_window id)) × IsRepeated id (snapshot_of e))
  pub accepted :
      IsSound e → (after.windows ≡ expected r.windows e) × ((c : RegistryChange) × (result ≡ ok c))
  pub numbered :
      after.revision
      ≡ (if after.windows =? r.windows then r.revision else saturating_suc r.revision)

first_duplicate-unseen :
    (seen : List WindowId) (ws : List MinimizedWindow) (id : WindowId)
    → first_duplicate seen ws ≡ none
    → any (λ j. j == id) seen ≡ true
    → has id_of id ws ≡ false
unfolding first_duplicate
first_duplicate-unseen seen [] id h k = refl
first_duplicate-unseen seen (w ∷ ws) id h k =
    ground (arith, first_duplicate-unseen (w.id ∷ seen) ws id)

pub first_duplicate-IsDistinct :
    (seen : List WindowId) (ws : List MinimizedWindow)
    → first_duplicate seen ws ≡ none
    → IsDistinct id_of ws
unfolding first_duplicate
first_duplicate-IsDistinct seen [] h = tt
first_duplicate-IsDistinct seen (w ∷ ws) h = (
  ground (arith, first_duplicate-unseen (w.id ∷ seen) ws w.id),
  first_duplicate-IsDistinct (w.id ∷ seen) ws (ground arith),
)

IsRepeated-IsDistinct :
    (id : WindowId) (ws : List MinimizedWindow) → IsRepeated id ws → IsDistinct id_of ws → ⊥
IsRepeated-IsDistinct id [] twice d = elim twice [ ]
IsRepeated-IsDistinct id (w ∷ ws) (inl (same, later)) d = ground arith
IsRepeated-IsDistinct id (w ∷ ws) (inr later) d = IsRepeated-IsDistinct id ws later d.1

-- The id that is found was seen before and occurs, or occurs twice.
first_duplicate-seen :
    (seen : List WindowId) (ws : List MinimizedWindow) (id : WindowId)
    → first_duplicate seen ws ≡ some id
    → ((any (λ j. j == id) seen ≡ true) × (has id_of id ws ≡ true)) ⊎ IsRepeated id ws
unfolding first_duplicate
first_duplicate-seen seen [] id h = absurd (ground arith)
first_duplicate-seen seen (w ∷ ws) id h = elim (Bool-cases (any (λ j. j == w.id) seen)) [
  | inl old ↦ inl (ground arith)
  | inr new ↦ elim (first_duplicate-seen (w.id ∷ seen) ws id (ground arith)) [
    | inr twice ↦ inr (inr twice)
    | inl (among, later) ↦ elim (Bool-cases (w.id == id)) [
      | inl same ↦ inr (inl (ground arith, later))
      | inr other ↦ inl (ground arith)
    ]
  ]
]

pub first_duplicate-IsRepeated :
    (ws : List MinimizedWindow) (id : WindowId) → first_duplicate [] ws ≡ some id → IsRepeated id ws
first_duplicate-IsRepeated ws id h = elim (first_duplicate-seen [] ws id h) [
  | inr twice ↦ twice
  | inl (among, _) ↦ absurd (ground arith)
]

pub first_duplicate-some :
    (ws : List MinimizedWindow) (id : WindowId)
    → first_duplicate [] ws ≡ some id
    → IsDistinct id_of ws
    → ⊥
first_duplicate-some ws id h = IsRepeated-IsDistinct id ws (first_duplicate-IsRepeated ws id h)

pub same-revision :
    (r : MinimizedRegistry)
    → r.revision ≡ (if r.windows =? r.windows then r.revision else saturating_suc r.revision)
same-revision r = rw (beq_refl r.windows)

pub new-revision :
    (r : MinimizedRegistry) (ws : List MinimizedWindow)
    → ws ≢ r.windows
    → (advance r ws).revision ≡ (if ws =? r.windows then r.revision else saturating_suc r.revision)
new-revision r ws h = ground (arith, list_beq_iff ws r.windows)

-- An event that is understood and changes nothing.
pub kept-Accounts :
    (r : MinimizedRegistry) (e : MinimizationEvent) (c : RegistryChange)
    → apply r e ≡ some (r, ok c)
    → IsSound e
    → r.windows ≡ expected r.windows e
    → Accounts r e
kept-Accounts r e c returns sound same = record {
  after = r;
  result = ok c;
  returns = returns;
  refused = λ h. absurd (h sound);
  accepted = λ h. (same, (c, refl));
  numbered = same-revision r;
}

-- An event that leaves other windows.
pub moved-Accounts :
    (r : MinimizedRegistry) (e : MinimizationEvent) (c : RegistryChange)
    → apply r e ≡ some (advance r (expected r.windows e), ok c)
    → IsSound e
    → expected r.windows e ≢ r.windows
    → Accounts r e
moved-Accounts r e c returns sound differ = record {
  after = advance r (expected r.windows e);
  result = ok c;
  returns = returns;
  refused = λ h. absurd (h sound);
  accepted = λ h. (refl, (c, refl));
  numbered = new-revision r (expected r.windows e) differ;
}
