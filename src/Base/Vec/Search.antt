-- ===== src/Base/Vec/Search.antt =====
-- Finding an entry by its id in lists that are cut down or extended.
use melibea.Base.Tests.{◌==◌, Bool-cases}
use melibea.Base.Lists.{filter}
use melibea.Base.Vec.Keyed.{has, find, IsDistinct}
use Prim.Native.Nat.{ℕ}
use mathlib.Core.Path.{◌≡◌, refl}
use mathlib.Core.Bool.{Bool, false}
use mathlib.Core.Logic.{inl, inr}
use mathlib.Core.List.{List, [], ◌∷◌, ◌++◌}
use mathlib.Core.Option.{none, some}
use native.Mathlib.Omega.{arith}

module _ {A : Type 0} (key : A → ℕ) where
  pub find_absent : (k : ℕ) (xs : List A) → has key k xs ≡ false → find key k xs ≡ none
  find_absent k [] h = refl
  find_absent k (x ∷ xs) h = ground (arith, find_absent k xs)

  pub find-append :
      (k : ℕ) (xs ys : List A)
      → find key k (xs ++ ys) ≡ elim (find key k xs) [ none ↦ find key k ys | some x ↦ some x ]
  find-append k [] ys = refl
  find-append k (x ∷ xs) ys = ground (arith, find-append k xs ys)

  pub has-filter :
      (p : A → Bool) (k : ℕ) (xs : List A) → has key k xs ≡ false → has key k (filter p xs) ≡ false
  has-filter p k [] h = refl
  has-filter p k (x ∷ xs) h = ground (arith, has-filter p k xs)

  pub filter-IsDistinct :
      (p : A → Bool) (xs : List A) → IsDistinct key xs → IsDistinct key (filter p xs)
  filter-IsDistinct p [] d = tt
  filter-IsDistinct p (x ∷ xs) d = elim (Bool-cases (p x)) [
    | inl kept ↦ ground (arith, filter-IsDistinct p xs d.1, has-filter p (key x) xs d.0)
    | inr dropped ↦ ground (arith, filter-IsDistinct p xs d.1)
  ]

  pub find-filter :
      (p : A → Bool) (k : ℕ) (t : A) (xs : List A)
      → IsDistinct key xs
      → find key k (filter p xs) ≡ some t
      → find key k xs ≡ some t
  find-filter p k t [] d h = h
  find-filter p k t (x ∷ xs) d h = elim (Bool-cases (key x == k)) [
    | inl same ↦ ground (arith, find_absent k (filter p xs), has-filter p k xs)
    | inr other ↦ ground (arith, find-filter p k t xs d.1)
  ]
