-- ===== src/Base/Vec/Keyed.antt =====
-- Lists of entries that a number identifies.
use melibea.Base.Tests.{◌==◌, if◌then◌else◌, Bool-cases, Option-cases}
use melibea.Base.Lists.{length, get_elem?, any, filter}
use melibea.Base.Vec.{remove_at, set_at}
use Prim.Native.Nat.{ℕ, suc, ◌+◌}
use mathlib.Core.Path.{◌≡◌, refl}
use mathlib.Core.Bool.{Bool, false, not, ◌||◌}
use mathlib.Core.Logic.{◌↔◌, inl, inr}
use mathlib.Core.List.{List, [], ◌∷◌, ◌++◌, map}
use mathlib.Core.Option.{Option, none, some}
use native.Mathlib.Omega.{arith}

module _ {A : Type 0} (key : A → ℕ) where
  -- Some entry has the id.
  abbrev pub has : ℕ → List A → Bool
  has k xs = any (λ x. key x == k) xs

  -- `iter().position(|entry| entry.id == k)`
  unfoldable pub position : ℕ → List A → Option ℕ
  position k [] = none
  position k (x ∷ xs) =
      let rest = position k xs in
      if key x == k then some 0 else elim rest [ none ↦ none | some i ↦ some (suc i) ]

  -- The first entry with the id.
  abbrev pub find : ℕ → List A → Option A
  find k [] = none
  find k (x ∷ xs) = let rest = find k xs in if key x == k then some x else rest

  -- No two entries have the same id.
  abbrev pub IsDistinct : List A → Type 0
  IsDistinct [] = Unit {0}
  IsDistinct (x ∷ xs) = (has (key x) xs ≡ false) × IsDistinct xs

  -- Each entry with the id of `w` becomes `w`.
  abbrev pub replace : A → List A → List A
  replace w xs = map (λ x. if key x == key w then w else x) xs

  abbrev pub without : ℕ → List A → List A
  without k xs = filter (λ x. not (key x == k)) xs

  pub position-none : (k : ℕ) (xs : List A) → (position k xs ≡ none) ↔ (has k xs ≡ false)
  unfolding position
  position-none k [] = ground arith
  position-none k (x ∷ xs) = ground (arith, position-none k xs)

  pub position-some :
      (k i : ℕ) (xs : List A)
      → position k xs ≡ some i
      → (x : A) × (get_elem? xs i ≡ some x) × (key x ≡ k)
  unfolding position
  position-some k i [] h = absurd (ground arith)
  position-some k i (x ∷ xs) h = elim (Bool-cases (key x == k)) [
    | inl here ↦ (x, ground arith, ground arith)
    | inr there ↦ elim (Option-cases (position k xs)) [
      | inl absent ↦ absurd (ground arith)
      | inr (j, found) ↦ let (y, at, same) = position-some k j xs found in (y, ground arith, same)
    ]
  ]

  pub has-append : (k : ℕ) (xs ys : List A) → has k (xs ++ ys) ≡ (has k xs || has k ys)
  has-append k [] ys = refl
  has-append k (x ∷ xs) ys = ground (arith, has-append k xs ys)

  pub position-prefix :
      (k : ℕ) (pre rest : List A)
      → has k pre ≡ false
      → position k (pre ++ rest)
        ≡ elim (position k rest) [ none ↦ none | some j ↦ some (length pre + j) ]
  unfolding position
  position-prefix k [] rest h = ground arith
  position-prefix k (x ∷ pre) rest h = ground (arith, position-prefix k pre rest)

  pub replace_absent : (w : A) (xs : List A) → has (key w) xs ≡ false → replace w xs ≡ xs
  replace_absent w [] h = refl
  replace_absent w (x ∷ xs) h = ground (arith, replace_absent w xs)

  pub without_absent : (k : ℕ) (xs : List A) → has k xs ≡ false → without k xs ≡ xs
  without_absent k [] h = refl
  without_absent k (x ∷ xs) h = ground (arith, without_absent k xs)

  pub set_at-replace :
      (w : A) (i : ℕ) (xs : List A)
      → IsDistinct xs
      → position (key w) xs ≡ some i
      → set_at xs i w ≡ some (replace w xs)
  unfolding position set_at
  set_at-replace w i [] d h = absurd (ground arith)
  set_at-replace w i (x ∷ xs) d h = elim (Bool-cases (key x == key w)) [
    | inl here ↦ ground (arith, replace_absent w xs)
    | inr there ↦ elim (Option-cases (position (key w) xs)) [
      | inl absent ↦ absurd (ground arith)
      | inr (j, found) ↦ ground (arith, set_at-replace w j xs d.1 found)
    ]
  ]

  pub remove_at-without :
      (k i : ℕ) (x : A) (xs : List A)
      → IsDistinct xs
      → position k xs ≡ some i
      → get_elem? xs i ≡ some x
      → remove_at xs i ≡ some (x, without k xs)
  unfolding position remove_at
  remove_at-without k i x [] d h g = absurd (ground arith)
  remove_at-without k i x (y ∷ xs) d h g = elim (Bool-cases (key y == k)) [
    | inl here ↦ ground (arith, without_absent k xs)
    | inr there ↦ elim (Option-cases (position k xs)) [
      | inl absent ↦ absurd (ground arith)
      | inr (j, found) ↦ ground (arith, remove_at-without k j x xs d.1 found)
    ]
  ]

  has-replace : (k : ℕ) (w : A) (xs : List A) → has k (replace w xs) ≡ has k xs
  has-replace k w [] = refl
  has-replace k w (x ∷ xs) = ground (arith, has-replace k w xs)

  pub replace-IsDistinct : (w : A) (xs : List A) → IsDistinct xs → IsDistinct (replace w xs)
  replace-IsDistinct w [] d = tt
  replace-IsDistinct w (x ∷ xs) d = (
    ground (arith, has-replace (key x) w xs, has-replace (key w) w xs),
    replace-IsDistinct w xs d.1,
  )

  pub has-without :
      (j k : ℕ) (xs : List A) → has j (without k xs) ≡ (if j == k then false else has j xs)
  has-without j k [] = ground arith
  has-without j k (x ∷ xs) = ground (arith, has-without j k xs)

  pub without-IsDistinct : (k : ℕ) (xs : List A) → IsDistinct xs → IsDistinct (without k xs)
  without-IsDistinct k [] d = tt
  without-IsDistinct k (x ∷ xs) d =
      ground (arith, has-without (key x) k xs, without-IsDistinct k xs d.1)

  pub append-IsDistinct :
      (xs : List A) (w : A) → IsDistinct xs → has (key w) xs ≡ false → IsDistinct (xs ++ w ∷ [])
  append-IsDistinct [] w d h = (refl, tt)
  append-IsDistinct (x ∷ xs) w d h =
      (ground (arith, has-append (key x) xs (w ∷ [])), append-IsDistinct xs w d.1 (ground arith))
