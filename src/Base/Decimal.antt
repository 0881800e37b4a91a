-- ===== src/Base/Decimal.antt =====
-- `str::parse::<u64>`: an optional plus sign and decimal digits.
use Prim.Native.Char.{code}
use Prim.Native.Nat.{ℕ, ◌+◌, ◌-◌, ◌*◌, ◌≤◌}
use Prim.Native.String.{String}
use mathlib.Core.Path.{◌≡◌}
use mathlib.Core.Bool.{Bool, true, false, ◌&&◌}
use mathlib.Core.Logic.{inl, inr}
use mathlib.Core.Option.{Option, none, some}
use native.Mathlib.Omega.{arith}
use melibea.Base.Tests.{leb, ◌==◌, if◌then◌else◌, Bool-cases}

abbrev max_value : ℕ
max_value = 0xffffffffffffffff

abbrev pub is_digit : ℕ → Bool
is_digit c = leb b'0' c && leb c b'9'

-- The digits after the number `n`, with the overflow test at each.
unfoldable pub parse_digits : ℕ → String → Option ℕ
parse_digits n String.[] = some n
parse_digits n (String.◌∷◌ c s) =
    elim (is_digit (code c) && leb (n * 10 + (code c - b'0')) max_value) [
      | true ↦ parse_digits (n * 10 + (code c - b'0')) s
      | false ↦ none
    ]

abbrev parse_unsigned : String → Option ℕ
parse_unsigned String.[] = none
parse_unsigned (String.◌∷◌ c s) = parse_digits 0 (String.◌∷◌ c s)

unfoldable pub parse_u64 : String → Option ℕ
unfolding parse_digits
parse_u64 String.[] = none
parse_u64 (String.◌∷◌ c s) =
    if code c == b'+' then parse_unsigned s else parse_digits 0 (String.◌∷◌ c s)

parse_digits-le : (n r : ℕ) (s : String) → n ≤ max_value → parse_digits n s ≡ some r → r ≤ max_value
unfolding parse_digits
parse_digits-le n r String.[] h e = ground arith
parse_digits-le n r (String.◌∷◌ c s) h e =
    elim (Bool-cases (is_digit (code c) && leb (n * 10 + (code c - b'0')) max_value)) [
      | inl fits ↦ parse_digits-le (n * 10 + (code c - b'0')) r s (ground arith) (ground arith)
      | inr refused ↦ absurd (ground arith)
    ]

-- What is read fits 64 bits.
pub parse_u64-le : (r : ℕ) (s : String) → parse_u64 s ≡ some r → r ≤ 0xffffffffffffffff
unfolding parse_u64
parse_u64-le r String.[] e = absurd (ground arith)
parse_u64-le r (String.◌∷◌ c s) e = elim (Bool-cases (code c == b'+')) [
  | inl plus ↦ unsigned-le r s (ground arith)
  | inr bare ↦ parse_digits-le 0 r (String.◌∷◌ c s) (omega arith) (ground arith)
]
  where
    unsigned-le : (r : ℕ) (s : String) → parse_unsigned s ≡ some r → r ≤ max_value
    unsigned-le r String.[] e = absurd (ground arith)
    unsigned-le r (String.◌∷◌ c s) e = parse_digits-le 0 r (String.◌∷◌ c s) (omega arith) e
