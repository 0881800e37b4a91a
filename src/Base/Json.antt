-- ===== src/Base/Json.antt =====
-- serde_json, which the code calls and does not implement: a JSON value is known by the shape that the
-- code matches on, and a failure by its text.
use Prim.Native.String.{String}
use mathlib.Core.List.{List}
use melibea.Base.Results.{Result}

-- An object has its entries, whose names differ, in the order of the iteration over them.
pub data View {ℓ} (V : Type ℓ) : Type ℓ where
  object : List (String × V) → View V
  string : String → View V
  other : View V

pub record Json : Type 1 where
  pub Value : Type 0
  pub view : Value → View Value
  pub from_str : String → Result String Value
