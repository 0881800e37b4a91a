-- ===== src/Attention/Bounds.antt =====
-- Which widths attention.rs accepts.
use Prim.Native.Nat.{◌≤◌, ◌<◌}
use melibea.Base.{◌≡◌, ◌↔◌, String, ok, err, arith, string_eq}
use melibea.Base.Float.{F64, one_bits, Arithmetic}
use melibea.Base.Text.{trim}
use melibea.Attention.{WidthPolicy, proportion, preserve, invalid_number, new_proportion, from_str}

-- The width is one that niri may be asked for: a fraction above 0.0 and at most 1.0.
abbrev pub InRange : WidthPolicy → Type 0
InRange (proportion p) = (0 < p.value.bits) × (p.value.bits ≤ one_bits)
InRange preserve = Unit {0}

-- `WidthPolicy::proportion` accepts a value exactly if its bits lie above those of 0.0 and not
-- above those of 1.0, so no zero, negative, infinite or NaN value, and keeps it; every other value
-- is handed back in the error.
pub new_proportion_exact :
    (f : F64)
    → ((0 < f.bits) × (f.bits ≤ one_bits)
        → new_proportion f ≡ ok (proportion (record { value = f })))
      × (¬ ((0 < f.bits) × (f.bits ≤ one_bits)) → new_proportion f ≡ err (record { value = f }))
unfolding new_proportion
new_proportion_exact f = ground arith

-- A text is read as `preserve` exactly if it is that word between white space.
pub from_str-preserve :
    (a : Arithmetic) (s : String) → (from_str a s ≡ ok preserve) ↔ (trim s ≡ "preserve")
unfolding from_str
from_str-preserve a s = ground (arith, string_eq.beq_iff (trim s) "preserve")

pub new_proportion-InRange : (f : F64) (p : WidthPolicy) → new_proportion f ≡ ok p → InRange p
unfolding new_proportion
new_proportion-InRange f (proportion q) h = ground arith
new_proportion-InRange f preserve h = tt

from_str-ok : (a : Arithmetic) (s : String) (p : WidthPolicy) → from_str a s ≡ ok p → InRange p
unfolding from_str
from_str-ok a s (proportion q) h = ground arith
from_str-ok a s preserve h = tt

-- Every policy that a text is read as may be sent to niri; an `invalid_number` quotes the text as it
-- was given.
pub from_str-InRange :
    (a : Arithmetic) (s : String)
    → ((p : WidthPolicy) → from_str a s ≡ ok p → InRange p)
      × ((t : String) → from_str a s ≡ err (invalid_number t) → t ≡ s)
unfolding from_str
from_str-InRange a s = (from_str-ok a s, λ t h. ground arith)
