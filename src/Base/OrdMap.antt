-- ===== src/Base/OrdMap.antt =====
-- `BTreeMap` over numeric keys, as an association list in ascending order of its keys.
use Prim.Native.Nat.{ℕ, ◌≤◌, ◌<◌}
use mathlib.Core.Path.{◌≡◌, refl}
use mathlib.Core.Bool.{Bool}
use mathlib.Core.List.{List, [], ◌∷◌}
use mathlib.Core.Option.{Option, none, some}
use native.Mathlib.Omega.{arith}
use melibea.Base.Tests.{ltb, ◌==◌, if◌then◌else◌, is_some}

abbrev pub OrdMap {ℓ} : Type ℓ → Type ℓ
OrdMap V = List (ℕ × V)

module _ {ℓ} {V : Type ℓ} where
  unfoldable pub get : ℕ → OrdMap V → Option V
  get k [] = none
  get k ((j, v) ∷ m) = if k == j then some v else get k m

  unfoldable pub insert : ℕ → V → OrdMap V → OrdMap V
  insert k v [] = (k, v) ∷ []
  insert k v ((j, w) ∷ m) =
      let rest = insert k v m in
      if ltb k j then (k, v) ∷ (j, w) ∷ m else if k == j then (k, v) ∷ m else (j, w) ∷ rest

  unfoldable pub remove : ℕ → OrdMap V → OrdMap V
  remove k [] = []
  remove k ((j, w) ∷ m) = let rest = remove k m in if k == j then rest else (j, w) ∷ rest

  abbrev pub contains_key : ℕ → OrdMap V → Bool
  contains_key k m = is_some (get k m)

  abbrev pub keys : OrdMap V → List ℕ
  keys [] = []
  keys ((k, v) ∷ m) = k ∷ keys m

  abbrev pub values : OrdMap V → List V
  values [] = []
  values ((k, v) ∷ m) = v ∷ values m

  -- `collect` inserts the entries in their order.
  unfoldable pub collect_from : OrdMap V → List (ℕ × V) → OrdMap V
  collect_from m [] = m
  collect_from m ((k, v) ∷ l) = collect_from (insert k v m) l

  pub get-insert :
      (k j : ℕ) (v : V) (m : OrdMap V) → get j (insert k v m) ≡ (if j == k then some v else get j m)
  unfolding get insert
  get-insert k j v [] = refl
  get-insert k j v ((i, w) ∷ m) = ground (arith, get-insert k j v m)

  pub get-remove :
      (k j : ℕ) (m : OrdMap V) → get j (remove k m) ≡ (if j == k then none else get j m)
  unfolding get remove
  get-remove k j [] = ground arith
  get-remove k j ((i, w) ∷ m) = ground (arith, get-remove k j m)

  -- All keys lie above `k`.
  abbrev pub Above : ℕ → OrdMap V → Type 0
  Above k [] = Unit {0}
  Above k ((j, w) ∷ m) = (k < j) × Above k m

  -- The keys ascend strictly.
  abbrev pub IsSorted : OrdMap V → Type 0
  IsSorted [] = Unit {0}
  IsSorted ((j, w) ∷ m) = Above j m × IsSorted m

  Above-mono : (i k : ℕ) (m : OrdMap V) → i ≤ k → Above k m → Above i m
  Above-mono i k [] h a = tt
  Above-mono i k ((j, w) ∷ m) h a = (omega arith, Above-mono i k m h a.1)

  insert-Above : (i k : ℕ) (v : V) (m : OrdMap V) → i < k → Above i m → Above i (insert k v m)
  unfolding insert
  insert-Above i k v [] h a = (h, tt)
  insert-Above i k v ((j, w) ∷ m) h a = ground (arith, insert-Above i k v m h a.1)

  remove-Above : (i k : ℕ) (m : OrdMap V) → Above i m → Above i (remove k m)
  unfolding remove
  remove-Above i k [] a = tt
  remove-Above i k ((j, w) ∷ m) a = ground (arith, remove-Above i k m a.1)

  pub insert-IsSorted : (k : ℕ) (v : V) (m : OrdMap V) → IsSorted m → IsSorted (insert k v m)
  unfolding insert
  insert-IsSorted k v [] s = (tt, tt)
  insert-IsSorted k v ((j, w) ∷ m) s =
      ground (arith, insert-IsSorted k v m s.1, insert-Above j k v m, Above-mono k j m)

  pub remove-IsSorted : (k : ℕ) (m : OrdMap V) → IsSorted m → IsSorted (remove k m)
  unfolding remove
  remove-IsSorted k [] s = tt
  remove-IsSorted k ((j, w) ∷ m) s = ground (arith, remove-IsSorted k m s.1, remove-Above j k m)

  pub collect_from-IsSorted :
      (m : OrdMap V) (l : List (ℕ × V)) → IsSorted m → IsSorted (collect_from m l)
  unfolding collect_from
  collect_from-IsSorted m [] s = s
  collect_from-IsSorted m ((k, v) ∷ l) s =
      collect_from-IsSorted (insert k v m) l (insert-IsSorted k v m s)

  get_below : (k j : ℕ) (m : OrdMap V) → k ≤ j → Above j m → get k m ≡ none
  unfolding get
  get_below k j [] h a = refl
  get_below k j ((i, w) ∷ m) h a = ground (arith, get_below k j m h a.1)

-- Two ascending maps with the same entries are the same list.
module _ {V : Type 0} where
  OrdMap-ext_head :
      (i j : ℕ) (v w : V) (m n : OrdMap V)
      → Above i m
      → Above j n
      → ((k : ℕ) → get k ((i, v) ∷ m) ≡ get k ((j, w) ∷ n))
      → (i ≡ j) × (v ≡ w) × ((k : ℕ) → get k m ≡ get k n)
  unfolding get
  OrdMap-ext_head i j v w m n a b h = (
    ground (arith, h i, h j, get_below i j n, get_below j i m),
    ground (arith, h i, h j, get_below i j n, get_below j i m),
    λ k.
        ground (
          arith,
          h k,
          h i,
          h j,
          get_below k i m,
          get_below k j n,
          get_below i j n,
          get_below j i m,
        ),
  )

  pub OrdMap-ext :
      (m n : OrdMap V) → IsSorted m → IsSorted n → ((k : ℕ) → get k m ≡ get k n) → m ≡ n
  unfolding get
  OrdMap-ext [] [] s t h = refl
  OrdMap-ext [] ((j, w) ∷ n) s t h = ground (arith, h j)
  OrdMap-ext ((i, v) ∷ m) [] s t h = ground (arith, h i)
  OrdMap-ext ((i, v) ∷ m) ((j, w) ∷ n) s t h =
      let (e, f, g) = OrdMap-ext_head i j v w m n s.0 t.0 h in
      let rest = OrdMap-ext m n s.1 t.1 g in cc
