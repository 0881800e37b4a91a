-- ===== src/Config/Resolve.antt =====
-- The rule that config.rs chooses for a window.
use melibea.Base.{
  subst, ℕ, ◌+◌, ◌<◌, ◌≡◌, refl, ◌↔◌, true, false, List, [], ◌∷◌, none, some, arith, get_elem?,
  Bool-cases, inl, inr, suc, zero,
}
use melibea.Config.{
  WindowIdentity, AttentionRule, Config, ResolvedRule, rule_matches, resolve_from, resolve,
}

-- The rule at a position, where there is one, does not match.
abbrev pub MissesAt : List AttentionRule → WindowIdentity → ℕ → Type 0
MissesAt rules window j =
    (r : AttentionRule) → get_elem? rules j ≡ some r → rule_matches r window ≡ false

-- `resolved` names the first rule that matches.
pub record IsFirstMatch (rules : List AttentionRule) (window : WindowIdentity) (r : ResolvedRule)
    : Type 0 where
  pub found : get_elem? rules r.index ≡ some r.rule
  pub matched : rule_matches r.rule window ≡ true
  pub first : (j : ℕ) → j < r.index → MissesAt rules window j

MissesAt-cons :
    (x : AttentionRule) (rules : List AttentionRule) (window : WindowIdentity) (n : ℕ)
    → rule_matches x window ≡ false
    → ((j : ℕ) → j < n → MissesAt rules window j)
    → (j : ℕ) → j < suc n
    → MissesAt (x ∷ rules) window j
MissesAt-cons x rules window n miss below zero h r e = ground arith
MissesAt-cons x rules window n miss below (suc j) h r e = below j (omega arith) r e

module _ (window : WindowIdentity) where
  -- The first match of a tail whose first rule stands at position `i` of the whole.
  abbrev FirstFrom : ℕ → List AttentionRule → ResolvedRule → Type 0
  FirstFrom i rules r =
      (n : ℕ) × (r.index ≡ i + n)
      × (get_elem? rules n ≡ some r.rule)
      × (rule_matches r.rule window ≡ true)
      × ((j : ℕ) → j < n → MissesAt rules window j)

  resolve_from-FirstFrom :
      (i : ℕ) (rules : List AttentionRule) (r : ResolvedRule)
      → resolve_from i rules window ≡ some r
      → FirstFrom i rules r
  unfolding resolve_from
  resolve_from-FirstFrom i [] r h = ground arith
  resolve_from-FirstFrom i (x ∷ rules) r h = elim (Bool-cases (rule_matches x window)) [
    | inl hit ↦ (0, ground arith, ground arith, ground arith, λ j lt. absurd (omega arith))
    | inr miss ↦
        let (n, at, found, matched, first) =
          resolve_from-FirstFrom (i + 1) rules r (ground arith) in
        (suc n, omega arith, found, matched, MissesAt-cons x rules window n miss first)
  ]

  FirstFrom-resolve_from :
      (i : ℕ) (rules : List AttentionRule) (r : ResolvedRule) (n : ℕ)
      → r.index ≡ i + n
      → get_elem? rules n ≡ some r.rule
      → rule_matches r.rule window ≡ true
      → ((j : ℕ) → j < n → MissesAt rules window j)
      → resolve_from i rules window ≡ some r
  unfolding resolve_from
  FirstFrom-resolve_from i [] r n at found matched first = ground arith
  FirstFrom-resolve_from i (x ∷ rules) r zero at found matched first = ground arith
  FirstFrom-resolve_from i (x ∷ rules) r (suc n) at found matched first = ground (
    arith,
    first 0 (omega arith) x refl,
    FirstFrom-resolve_from (i + 1) rules r n (omega arith) found matched
        (λ j h. first (suc j) (omega arith)),
  )

  resolve_from-none :
      (i : ℕ) (rules : List AttentionRule)
      → resolve_from i rules window ≡ none
      → (j : ℕ) → MissesAt rules window j
  unfolding resolve_from
  resolve_from-none i [] h j r e = ground arith
  resolve_from-none i (x ∷ rules) h zero r e = ground arith
  resolve_from-none i (x ∷ rules) h (suc j) r e =
      resolve_from-none (i + 1) rules (ground arith) j r e

  none-resolve_from :
      (i : ℕ) (rules : List AttentionRule)
      → ((j : ℕ) → MissesAt rules window j)
      → resolve_from i rules window ≡ none
  unfolding resolve_from
  none-resolve_from i [] h = refl
  none-resolve_from i (x ∷ rules) h =
      ground (arith, h 0 x refl, none-resolve_from (i + 1) rules (λ j. h (suc j)))

-- `Config::resolve` returns a rule with a position exactly if the rule stands at that position,
-- matches the window, and no rule above it does; it returns nothing exactly if no rule matches.
pub resolve-first :
    (config : Config) (window : WindowIdentity)
    → ((r : ResolvedRule)
        → (resolve config window ≡ some r) ↔ IsFirstMatch config.attention window r)
      × ((resolve config window ≡ none) ↔ ((j : ℕ) → MissesAt config.attention window j))
unfolding resolve
resolve-first config window = (
  λ r. (
    λ h.
        let (n, at, found, matched, first) = resolve_from-FirstFrom window 0 config.attention r h in
        let here : n ≡ r.index = omega arith in
        record {
          found = subst (λ k. get_elem? config.attention k ≡ some r.rule) here found;
          matched = matched;
          first = λ j lt. first j (omega arith);
        },
    λ f.
        FirstFrom-resolve_from window 0 config.attention r r.index (omega arith) f.found f.matched
          f.first,
  ),
  (resolve_from-none window 0 config.attention, none-resolve_from window 0 config.attention),
)
