-- ===== src/Executor/Best.antt =====
-- The action that executor.rs takes off its queue: the greatest by its key.
use melibea.Base.{
  ℕ, ◌<◌, ◌≡◌, refl, ◌⊎◌, inl, inr, false, List, [], ◌∷◌, none, some, arith, ◌==◌, ltb, not, ◌&&◌,
  ◌∙◌, true, Bool-cases, Option-cases, length, All, subst, sym, ◌+◌,
}
use melibea.Base.OrdMap
use melibea.Base.OrdMap.{OrdMap}
use melibea.Transition.{FocusState, focused, unfocused, is_focused}
use melibea.Executor.{ResizeAction, key_lt, max_from, max_by_key}

module _ {V : Type 0} where
  -- The value stands under some key.
  abbrev pub Held : V → OrdMap V → Type 0
  Held v m = (k : ℕ) × (OrdMap.get k m ≡ some v)

  pub All-get :
      (P : V → Type 0) (m : OrdMap V)
      → All P (OrdMap.values m)
      → (k : ℕ) (v : V) → OrdMap.get k m ≡ some v
      → P v
  unfolding OrdMap.get
  All-get P [] h k v e = absurd (ground arith)
  All-get P ((j, w) ∷ m) h k v e = elim (Bool-cases (k == j)) [
    | inl here ↦ subst P (ground arith) h.0
    | inr there ↦ All-get P m h.1 k v (ground arith)
  ]

  Above-get : (j k : ℕ) (v : V) (m : OrdMap V) → OrdMap.Above j m → OrdMap.get k m ≡ some v → j < k
  unfolding OrdMap.get
  Above-get j k v [] a e = absurd (ground arith)
  Above-get j k v ((i, w) ∷ m) a e = ground (arith, Above-get j k v m a.1)

  Held-cons : (j : ℕ) (w v : V) (m : OrdMap V) → OrdMap.Above j m → Held v m → Held v ((j, w) ∷ m)
  unfolding OrdMap.get
  Held-cons j w v m a (k, e) = (k, ground (arith, Above-get j k v m a e))

  length-remove_absent :
      (k : ℕ) (m : OrdMap V) → OrdMap.get k m ≡ none → length (OrdMap.remove k m) ≡ length m
  unfolding OrdMap.get OrdMap.remove
  length-remove_absent k [] h = refl
  length-remove_absent k ((j, w) ∷ m) h = ground (arith, length-remove_absent k m)

  pub length-remove_held :
      (k : ℕ) (v : V) (m : OrdMap V)
      → OrdMap.IsSorted m
      → OrdMap.get k m ≡ some v
      → length (OrdMap.remove k m) + 1 ≡ length m
  unfolding OrdMap.get OrdMap.remove
  length-remove_held k v [] s h = absurd (ground arith)
  length-remove_held k v ((j, w) ∷ m) s h = elim (Bool-cases (k == j)) [
    | inl here ↦ elim (Option-cases (OrdMap.get k m)) [
      | inl absent ↦ ground (arith, length-remove_absent k m absent)
      | inr (u, again) ↦ absurd (ground (arith, Above-get j k u m s.0 again))
    ]
    | inr there ↦ ground (arith, length-remove_held k v m s.1)
  ]

-- `a` runs no later than `b`: it is of a later observation, or of the same one and not behind it by
-- focus.
abbrev pub Outranks : ResizeAction → ResizeAction → Type 0
Outranks a b =
    (b.generation < a.generation)
    ⊎ ((a.generation ≡ b.generation) × (b.state ≡ focused → a.state ≡ focused))

focus-order :
    (s t : FocusState) → (not (is_focused s) && is_focused t) ≡ false → t ≡ focused → s ≡ focused
focus-order focused t h e = refl
focus-order unfocused focused h e = absurd (ground arith)
focus-order unfocused unfocused h e = absurd (ground arith)

-- The order of the keys.
above-Outranks : (a b : ResizeAction) → key_lt a b ≡ false → Outranks a b
above-Outranks a b h = elim (Bool-cases (ltb b.generation a.generation)) [
  | inl later ↦ inl (ground arith)
  | inr same ↦ inr (ground arith, focus-order a.state b.state (ground arith))
]

focus-below :
    (s t : FocusState) → (not (is_focused s) && is_focused t) ≡ true → s ≡ focused → t ≡ focused
focus-below focused t h e = absurd (ground arith)
focus-below unfocused t h e = absurd (ground arith)

below-Outranks : (a b : ResizeAction) → key_lt a b ≡ true → Outranks b a
below-Outranks a b h = elim (Bool-cases (ltb a.generation b.generation)) [
  | inl later ↦ inl (ground arith)
  | inr same ↦ inr (ground arith, focus-below a.state b.state (ground arith))
]

Outranks-trans : (a b c : ResizeAction) → Outranks a b → Outranks b c → Outranks a c
Outranks-trans a b c (inl h) (inl k) = inl (omega arith)
Outranks-trans a b c (inl h) (inr k) = inl (omega (arith, k.0))
Outranks-trans a b c (inr h) (inl k) = inl (omega (arith, h.0))
Outranks-trans a b c (inr h) (inr k) = inr (h.0 ∙ k.0, λ e. h.1 (k.1 e))

Outranks-refl : (a : ResizeAction) → Outranks a a
Outranks-refl a = inr (refl, λ e. e)

max_from-Outranks :
    (best : ResizeAction) (rest : List ResizeAction)
    → Outranks (max_from best rest) best × All (Outranks (max_from best rest)) rest
unfolding max_from
max_from-Outranks best [] = (Outranks-refl best, tt)
max_from-Outranks best (a ∷ rest) = elim (Bool-cases (key_lt a best)) [
  | inl below ↦
      let e : max_from best (a ∷ rest) ≡ max_from best rest = rw (below, max_from) refl in
      let (top, others) = max_from-Outranks best rest in
      subst (λ r. Outranks r best × All (Outranks r) (a ∷ rest)) (sym e)
        (
          top,
          (Outranks-trans (max_from best rest) best a top (below-Outranks a best below), others),
        )
  | inr above ↦
      let e : max_from best (a ∷ rest) ≡ max_from a rest = rw (above, max_from) refl in
      let (top, others) = max_from-Outranks a rest in
      subst (λ r. Outranks r best × All (Outranks r) (a ∷ rest)) (sym e)
        (Outranks-trans (max_from a rest) a best top (above-Outranks a best above), (top, others))
]

max_from-Held :
    (best : ResizeAction) (m : OrdMap ResizeAction)
    → OrdMap.IsSorted m
    → (max_from best (OrdMap.values m) ≡ best) ⊎ Held (max_from best (OrdMap.values m)) m
unfolding max_from
max_from-Held best [] s = inl refl
max_from-Held best ((j, a) ∷ m) s = elim (Bool-cases (key_lt a best)) [
  | inl below ↦
      rw (below, max_from)
        (elim (max_from-Held best m s.1) [
          | inl same ↦ inl same
          | inr held ↦ inr (Held-cons j a _ m s.0 held)
        ])
  | inr above ↦
      rw (above, max_from)
        (elim (max_from-Held a m s.1) [
          | inl same ↦ inr (j, unfold OrdMap.get in ground arith)
          | inr held ↦ inr (Held-cons j a _ m s.0 held)
        ])
]

pub max_by_key-best :
    (m : OrdMap ResizeAction) (best : ResizeAction)
    → OrdMap.IsSorted m
    → max_by_key (OrdMap.values m) ≡ some best
    → Held best m × All (Outranks best) (OrdMap.values m)
unfolding max_by_key
max_by_key-best [] best s h = absurd (ground arith)
max_by_key-best ((j, a) ∷ m) best s h =
    let e : max_from a (OrdMap.values m) ≡ best = ground arith in
    subst (λ b. Held b ((j, a) ∷ m) × All (Outranks b) (OrdMap.values ((j, a) ∷ m))) e
      (
        elim (max_from-Held a m s.1) [
          | inl same ↦ (j, unfold OrdMap.get in ground arith)
          | inr held ↦ Held-cons j a _ m s.0 held
        ],
        max_from-Outranks a (OrdMap.values m),
      )
