-- ===== src/Base/Vec.antt =====
-- `Vec` by index, and lists whose entries a number identifies. Where the program would panic an
-- operation gives `none`.
pub mod Keyed
pub mod Search
use melibea.Base.Tests.{◌==◌, if◌then◌else◌}
use melibea.Base.Lists.{length, get_elem?}
use Prim.Native.Nat.{ℕ, zero, suc, ◌+◌, ◌≤◌, ◌<◌}
use mathlib.Core.Path.{◌≡◌, refl, ap}
use mathlib.Core.List.{List, [], ◌∷◌, ◌++◌}
use mathlib.Core.List.{append_assoc, append-nil}
use mathlib.Core.Option.{Option, none, some}
use native.Mathlib.Omega.{arith}

module _ {ℓ} {A : Type ℓ} where
  -- `Vec::insert`
  unfoldable pub insert_at : List A → ℕ → A → Option (List A)
  insert_at xs zero a = some (a ∷ xs)
  insert_at [] (suc i) a = none
  insert_at (x ∷ xs) (suc i) a = elim (insert_at xs i a) [ none ↦ none | some ys ↦ some (x ∷ ys) ]

  -- `Vec::remove`
  unfoldable pub remove_at : List A → ℕ → Option (A × List A)
  remove_at [] i = none
  remove_at (x ∷ xs) zero = some (x, xs)
  remove_at (x ∷ xs) (suc i) = elim (remove_at xs i) [
    | none ↦ none
    | some (a, ys) ↦ some (a, x ∷ ys)
  ]

  -- Assignment to an element.
  unfoldable pub set_at : List A → ℕ → A → Option (List A)
  set_at [] i a = none
  set_at (x ∷ xs) zero a = some (a ∷ xs)
  set_at (x ∷ xs) (suc i) a = elim (set_at xs i a) [ none ↦ none | some ys ↦ some (x ∷ ys) ]

  pub insert_at-prefix :
      (pre rest : List A) (a : A)
      → insert_at (pre ++ rest) (length pre) a ≡ some (pre ++ (a ∷ rest))
  unfolding insert_at
  insert_at-prefix [] rest a = refl
  insert_at-prefix (x ∷ pre) rest a = rw (insert_at-prefix pre rest a)

  pub remove_at-prefix :
      (pre rest : List A) (j : ℕ) (a : A) (ys : List A)
      → remove_at rest j ≡ some (a, ys)
      → remove_at (pre ++ rest) (length pre + j) ≡ some (a, pre ++ ys)
  unfolding remove_at
  remove_at-prefix [] rest j a ys h = ground arith
  remove_at-prefix (x ∷ pre) rest j a ys h = ground (arith, remove_at-prefix pre rest j a ys h)

  pub set_at-prefix :
      (pre rest : List A) (x a : A)
      → set_at (pre ++ (x ∷ rest)) (length pre) a ≡ some (pre ++ (a ∷ rest))
  unfolding set_at
  set_at-prefix [] rest x a = refl
  set_at-prefix (y ∷ pre) rest x a = rw (set_at-prefix pre rest x a)

  pub set_at_self :
      (xs : List A) (i : ℕ) (x : A) → get_elem? xs i ≡ some x → set_at xs i x ≡ some xs
  unfolding set_at
  set_at_self [] i x h = absurd (ground arith)
  set_at_self (y ∷ xs) zero x h = ground arith
  set_at_self (y ∷ xs) (suc i) x h = rw (set_at_self xs i x h)

  pub get_elem?-set_at :
      (xs ys : List A) (i : ℕ) (x : A) → set_at xs i x ≡ some ys → get_elem? ys i ≡ some x
  unfolding set_at
  get_elem?-set_at [] ys i x h = absurd (ground arith)
  get_elem?-set_at (z ∷ xs) [] zero x h = absurd (ground arith)
  get_elem?-set_at (z ∷ xs) (y ∷ ys) zero x h = ground arith
  get_elem?-set_at (z ∷ xs) [] (suc i) x h = absurd (ground arith)
  get_elem?-set_at (z ∷ xs) (y ∷ ys) (suc i) x h = get_elem?-set_at xs ys i x (ground arith)

  pub length-remove_at :
      (xs ys : List A) (i : ℕ) (x : A) → remove_at xs i ≡ some (x, ys) → length ys + 1 ≡ length xs
  unfolding remove_at
  length-remove_at [] ys i x h = absurd (ground arith)
  length-remove_at (z ∷ xs) ys zero x h = ground arith
  length-remove_at (z ∷ xs) [] (suc i) x h = absurd (ground arith)
  length-remove_at (z ∷ xs) (y ∷ ys) (suc i) x h =
      omega (arith, length-remove_at xs ys i x (ground arith))

  pub get_elem?-prefix :
      (pre rest : List A) (x : A) → get_elem? (pre ++ (x ∷ rest)) (length pre) ≡ some x
  get_elem?-prefix [] rest x = refl
  get_elem?-prefix (y ∷ pre) rest x = get_elem?-prefix pre rest x

  pub append_snoc :
      (pre : List A) (x : A) (rest : List A) → (pre ++ x ∷ []) ++ rest ≡ pre ++ (x ∷ rest)
  append_snoc pre x rest = append_assoc pre (x ∷ []) rest
