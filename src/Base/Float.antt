-- ===== src/Base/Float.antt =====
-- `f64` by its 64 bits (IEEE 754 binary64). Tests and comparisons are those of the bit pattern;
-- rounded arithmetic and decimal parsing are parameters of the code that uses them.
use Prim.Native.Nat.{ℕ, ◌%◌}
use Prim.Native.String.{String}
use mathlib.Core.Bool.{Bool, true, false, not, ◌&&◌}
use mathlib.Core.Option.{Option}
use melibea.Base.Tests.{ltb, leb, ◌==◌}

pub record F64 : Type 0 where
  pub bits : ℕ

abbrev sign_bit : ℕ
sign_bit = 0x8000000000000000

abbrev infinity_bits : ℕ
infinity_bits = 0x7ff0000000000000

-- The pattern of 1.0.
abbrev pub one_bits : ℕ
one_bits = 0x3ff0000000000000

abbrev pub zero_f64 : F64
zero_f64 = record { bits = 0 }

abbrev pub one_f64 : F64
one_f64 = record { bits = one_bits }

abbrev pub hundred_f64 : F64
hundred_f64 = record { bits = 0x4059000000000000 }

abbrev pub magnitude : F64 → ℕ
magnitude f = f.bits % 0x8000000000000000

abbrev pub is_negative : F64 → Bool
is_negative f = leb 0x8000000000000000 f.bits

abbrev pub is_nan : F64 → Bool
is_nan f = ltb 0x7ff0000000000000 (magnitude f)

-- `f64::is_finite`
unfoldable pub is_finite : F64 → Bool
is_finite f = ltb (magnitude f) 0x7ff0000000000000

-- `<=` of two values that are no NaN; the two zeros are equal.
abbrev pub ordered_le : Bool → Bool → ℕ → ℕ → Bool
ordered_le true true a b = leb b a
ordered_le true false a b = true
ordered_le false true a b = a == 0 && b == 0
ordered_le false false a b = leb a b

-- `<=` and `<` on `f64`: false where a NaN takes part.
unfoldable pub le_f64 : F64 → F64 → Bool
le_f64 a b =
    not (is_nan a)
    && not (is_nan b)
    && ordered_le (is_negative a) (is_negative b) (magnitude a) (magnitude b)

unfoldable pub lt_f64 : F64 → F64 → Bool
lt_f64 a b =
    not (is_nan a)
    && not (is_nan b)
    && not (ordered_le (is_negative b) (is_negative a) (magnitude b) (magnitude a))

-- The rounded operations.
pub record Arithmetic : Type 0 where
  pub add : F64 → F64 → F64
  pub mul : F64 → F64 → F64
  pub div : F64 → F64 → F64
  pub parse : String → Option F64
