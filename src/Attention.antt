-- ===== src/Attention.antt =====
-- attention.rs: width policies, their validation and their textual form.
pub mod Bounds
use melibea.Base.{
  ◌≡◌, Bool, true, false, ◌&&◌, String, Option, none, some, Result, ok, err, map_err, ◌>>=◌,
  if◌then◌else◌, ◌=?◌, string_eq,
}
use melibea.Base.Float.{F64, is_finite, lt_f64, le_f64, zero_f64, one_f64, hundred_f64, Arithmetic}
use melibea.Base.Text.{trim, strip_suffix}

-- `Proportion`: a validated fraction of the output width.
pub record Proportion : Type 0 where
  pub value : F64

pub record InvalidProportion : Type 0 where
  pub value : F64

pub data WidthPolicy : Type 0 where
  proportion : Proportion → WidthPolicy
  preserve : WidthPolicy

pub data WidthParseError : Type 0 where
  invalid_number : String → WidthParseError
  invalid_proportion : InvalidProportion → WidthParseError

-- `WidthPolicy::proportion`
unfoldable pub new_proportion : F64 → Result InvalidProportion WidthPolicy
unfolding is_finite lt_f64 le_f64
new_proportion value =
    if is_finite value && lt_f64 zero_f64 value && le_f64 value one_f64
    then ok (proportion (record { value = value }))
    else err (record { value = value })

unfoldable pub parse_number : Arithmetic → String → String → Result WidthParseError F64
parse_number a value original = elim (a.parse value) [
  | none ↦ err (invalid_number original)
  | some f ↦ ok f
]

-- The branch of `from_str` on the `%` suffix.
unfoldable pub parse_fraction :
    Arithmetic → Option String → String → String → Result WidthParseError F64
unfolding parse_number
parse_fraction a (some percent) value input =
    parse_number a percent input >>= λ n. ok (a.div n hundred_f64)
parse_fraction a none value input = parse_number a value input

-- `<WidthPolicy as FromStr>::from_str`
unfoldable pub from_str : Arithmetic → String → Result WidthParseError WidthPolicy
unfolding parse_fraction new_proportion
from_str a input =
    let value = trim input in
    if value =? "preserve"
    then ok preserve
    else (parse_fraction a (strip_suffix b'%' value) value input >>= λ p.
        map_err invalid_proportion (new_proportion p))

pub record AttentionPolicy : Type 0 where
  pub focused : WidthPolicy
  pub unfocused : WidthPolicy

-- `AttentionPolicy::width_for`
unfoldable pub width_for : AttentionPolicy → Bool → WidthPolicy
width_for p focused = if focused then p.focused else p.unfocused
