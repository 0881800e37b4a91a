-- ===== src/Config/Validate.antt =====
-- Which configurations config.rs accepts, and which rule it blames.
use melibea.Base.{
  subst, ℕ, zero, suc, ◌+◌, ◌<◌, ◌≡◌, refl, ◌⊎◌, ◌↔◌, inl, inr, false, ◌&&◌, List, [], ◌∷◌, Option,
  none, some, ok, err, arith, String, get_elem?, length, All, Result-cases, is_none,
}
use melibea.Attention.{WidthPolicy}
use melibea.Attention.Bounds.{InRange, from_str-InRange, new_proportion-InRange}
use melibea.Config.{
  AttentionRule, Config, RawAttentionRule, RawConfig, ConfigError, no_attention_rules, text, number,
  RawWidth, Regex, Platform, try_from_raw, try_from_raw_all, from_raw, parse_width, compile_pattern,
}

-- A rule with a matcher and with widths that may be sent to niri.
pub record IsValidRule (r : AttentionRule) : Type 0 where
  pub has_matcher : (is_none r.app_id && is_none r.title) ≡ false
  pub focused : InRange r.policy.focused
  pub unfocused : InRange r.policy.unfocused

module _ (p : Platform) where
  parse_width-InRange :
      (i : ℕ) (field : String) (raw : RawWidth) (w : WidthPolicy)
      → parse_width p i field raw ≡ ok w
      → InRange w
  unfolding parse_width
  parse_width-InRange i field (text value) w h =
      (from_str-InRange p.arithmetic value).0 w (ground arith)
  parse_width-InRange i field (number value) w h = new_proportion-InRange value w (ground arith)

  compile_pattern-is_none :
      (i : ℕ) (field : String) (pattern : Option String) (r : Option Regex)
      → compile_pattern p i field pattern ≡ ok r
      → is_none r ≡ is_none pattern
  unfolding compile_pattern
  compile_pattern-is_none i field none r h = ground arith
  compile_pattern-is_none i field (some value) r h = ground arith

  try_from_raw-IsValidRule :
      (i : ℕ) (raw : RawAttentionRule) (r : AttentionRule)
      → try_from_raw p i raw ≡ ok r
      → IsValidRule r
  try_from_raw-IsValidRule i raw r h = record {
    has_matcher =
        unfold try_from_raw in
        ground (
          arith,
          compile_pattern-is_none i "app_id" raw.app_id r.app_id,
          compile_pattern-is_none i "title" raw.title r.title,
        );
    focused =
        parse_width-InRange i "focused_width" raw.focused_width r.policy.focused
          (unfold try_from_raw in ground arith);
    unfocused =
        parse_width-InRange i "unfocused_width" raw.unfocused_width r.policy.unfocused
          (unfold try_from_raw in ground arith);
  }

  -- Each rule of the result is what its own raw rule, at its own position, is turned into.
  abbrev pub Converts : ℕ → List RawAttentionRule → List AttentionRule → Type 0
  Converts i [] [] = Unit {0}
  Converts i (raw ∷ raws) (r ∷ rs) = (try_from_raw p i raw ≡ ok r) × Converts (i + 1) raws rs
  Converts i _ _ = ⊥

  -- The raw rules before position `n` are accepted.
  abbrev pub AcceptsBefore : ℕ → ℕ → List RawAttentionRule → Type 0
  AcceptsBefore i n raws =
      (j : ℕ)
      → j < n
      → (raw : RawAttentionRule) → get_elem? raws j ≡ some raw
      → (r : AttentionRule) × (try_from_raw p (i + j) raw ≡ ok r)

  -- The position of the first raw rule that is refused, with its error.
  abbrev pub FirstRefused : ℕ → List RawAttentionRule → ConfigError → Type 0
  FirstRefused i raws e =
      (n : ℕ) × (raw : RawAttentionRule) × (get_elem? raws n ≡ some raw)
      × (try_from_raw p (i + n) raw ≡ err e)
      × AcceptsBefore i n raws

  AcceptsBefore-cons :
      (i n : ℕ) (x : RawAttentionRule) (raws : List RawAttentionRule) (r : AttentionRule)
      → try_from_raw p i x ≡ ok r
      → AcceptsBefore (i + 1) n raws
      → AcceptsBefore i (suc n) (x ∷ raws)
  AcceptsBefore-cons i n x raws r passed before zero lt raw at = (r, ground arith)
  AcceptsBefore-cons i n x raws r passed before (suc j) lt raw at =
      let (s, e) = before j (omega arith) raw at in
      let here : i + 1 + j ≡ i + suc j = omega arith in
      (s, subst (λ k. try_from_raw p k raw ≡ ok s) here e)

  try_from_raw_all-Converts :
      (i : ℕ) (raws : List RawAttentionRule) (rs : List AttentionRule)
      → try_from_raw_all p i raws ≡ ok rs
      → Converts i raws rs × All IsValidRule rs × (length rs ≡ length raws)
  unfolding try_from_raw_all
  try_from_raw_all-Converts i [] [] h = (tt, tt, refl)
  try_from_raw_all-Converts i [] (r ∷ rs) h = ground arith
  try_from_raw_all-Converts i (raw ∷ raws) [] h = ground arith
  try_from_raw_all-Converts i (raw ∷ raws) (r ∷ rs) h =
      let here : try_from_raw p i raw ≡ ok r = ground arith in
      let (c, v, l) = try_from_raw_all-Converts (i + 1) raws rs (ground arith) in
      ((here, c), (try_from_raw-IsValidRule i raw r here, v), omega arith)

  try_from_raw_all-FirstRefused :
      (i : ℕ) (raws : List RawAttentionRule) (e : ConfigError)
      → try_from_raw_all p i raws ≡ err e
      → FirstRefused i raws e
  unfolding try_from_raw_all
  try_from_raw_all-FirstRefused i [] e h = ground arith
  try_from_raw_all-FirstRefused i (raw ∷ raws) e h = elim (Result-cases (try_from_raw p i raw)) [
    | inr (d, refused) ↦ (0, raw, refl, ground arith, λ j lt. absurd (omega arith))
    | inl (r, passed) ↦
        let (n, bad, at, refused, before) =
          try_from_raw_all-FirstRefused (i + 1) raws e (ground arith) in
        let here : i + 1 + n ≡ i + suc n = omega arith in
        (
          suc n,
          bad,
          at,
          subst (λ k. try_from_raw p k bad ≡ err e) here refused,
          AcceptsBefore-cons i n raw raws r passed before,
        )
  ]

  AcceptsBefore-rest :
      (i n : ℕ) (x : RawAttentionRule) (raws : List RawAttentionRule)
      → AcceptsBefore i (suc n) (x ∷ raws)
      → AcceptsBefore (i + 1) n raws
  AcceptsBefore-rest i n x raws before j lt raw at =
      let (s, e) = before (suc j) (omega arith) raw at in
      let here : i + suc j ≡ i + 1 + j = omega arith in
      (s, subst (λ k. try_from_raw p k raw ≡ ok s) here e)

  try_from_raw_all-err :
      (i : ℕ) (raws : List RawAttentionRule) (e : ConfigError)
      → FirstRefused i raws e
      → try_from_raw_all p i raws ≡ err e
  unfolding try_from_raw_all
  try_from_raw_all-err i [] e (n, bad, at, refused, before) = absurd (ground arith)
  try_from_raw_all-err i (raw ∷ raws) e (zero, bad, at, refused, before) = ground arith
  try_from_raw_all-err i (raw ∷ raws) e (suc n, bad, at, refused, before) =
      let here : i + suc n ≡ i + 1 + n = omega arith in
      let (r, passed) = before 0 (omega arith) raw refl in
      let rest : try_from_raw_all p (i + 1) raws ≡ err e = try_from_raw_all-err (i + 1) raws e (
        n,
        bad,
        at,
        subst (λ k. try_from_raw p k bad ≡ err e) here refused,
        AcceptsBefore-rest i n raw raws before,
      ) in
      ground arith

from_raw-length :
    (p : Platform) (raw : RawConfig) (c : Config)
    → from_raw p raw ≡ ok c
    → length c.attention ≡ length raw.attention
    → 0 < length c.attention
unfolding from_raw
from_raw-length p raw c h same = grind arith

pub from_raw-ok :
    (p : Platform) (raw : RawConfig) (c : Config)
    → from_raw p raw ≡ ok c
    → Converts p 0 raw.attention c.attention
      × All IsValidRule c.attention
      × (0 < length c.attention)
unfolding from_raw
from_raw-ok p raw c h =
    let (converts, valid, same) =
      try_from_raw_all-Converts p 0 raw.attention c.attention (ground arith) in
    (converts, valid, from_raw-length p raw c h same)

from_raw-err_at :
    (p : Platform) (raw : RawConfig) (e : ConfigError) (raws : List RawAttentionRule)
    → raw.attention ≡ raws
    → (from_raw p raw ≡ err e)
      ↔ (((raws ≡ []) × (e ≡ no_attention_rules)) ⊎ FirstRefused p 0 raws e)
unfolding from_raw
from_raw-err_at p raw e [] at = (
  λ h. inl (refl, ground arith),
  λ h. elim h [
    | inl (_, same) ↦ ground arith
    | inr (n, bad, there, refused, before) ↦ absurd (ground arith)
  ],
)
from_raw-err_at p raw e (x ∷ raws) at = (
  λ h. inr (try_from_raw_all-FirstRefused p 0 (x ∷ raws) e (ground arith)),
  λ h. elim h [
    | inl (empty, _) ↦ absurd (ground arith)
    | inr refused ↦ ground (arith, try_from_raw_all-err p 0 (x ∷ raws) e refused)
  ],
)

-- A configuration is refused in exactly two cases: it has no rule, and the error says so; or it has a
-- rule that is refused after rules that are all accepted, and the error is that rule's.
pub from_raw-err :
    (p : Platform) (raw : RawConfig) (e : ConfigError)
    → (from_raw p raw ≡ err e)
      ↔ (((raw.attention ≡ []) × (e ≡ no_attention_rules)) ⊎ FirstRefused p 0 raw.attention e)
from_raw-err p raw e = from_raw-err_at p raw e raw.attention refl
