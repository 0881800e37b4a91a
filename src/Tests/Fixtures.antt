-- ===== src/Tests/Fixtures.antt =====
-- The configuration, the windows and the engine of the unit tests in transition.rs.
use melibea.Base.{ℕ, String, true, false, [], ◌∷◌, Option, none, some, ok, err, ◌=?◌, string_eq}
use melibea.Base.Float.{F64, Arithmetic}
use melibea.Attention.{Proportion, WidthPolicy}
use melibea.Config.{Config, AttentionRule, Platform}
use melibea.Transition.{WindowRecord, managed, AttentionEngine}

abbrev pub tenth : F64
tenth = record { bits = 0x3fb999999999999a }

abbrev pub half : F64
half = record { bits = 0x3fe0000000000000 }

abbrev pub nine_tenths : F64
nine_tenths = record { bits = 0x3feccccccccccccd }

abbrev pub fraction : F64 → Proportion
fraction f = record { value = f }

abbrev pub width : F64 → WidthPolicy
width f = WidthPolicy.proportion (fraction f)

abbrev pub kitty_rule : AttentionRule
kitty_rule = record {
  app_id = some (λ s. s =? "kitty");
  title = none;
  policy = record { focused = width half; unfocused = width tenth };
}

abbrev pub code_rule : AttentionRule
code_rule = record {
  app_id = some (λ s. s =? "code");
  title = none;
  policy = record { focused = width nine_tenths; unfocused = WidthPolicy.preserve };
}

abbrev pub config : Config
config = record { attention = kitty_rule ∷ code_rule ∷ [] }

abbrev pub window : ℕ → String → WindowRecord
window id app_id = record { id = id; app_id = some app_id; title = none; eligibility = managed }

abbrev pub engine : AttentionEngine
engine = record {
  config = config;
  windows = (10, window 10 "kitty") ∷ (20, window 20 "code") ∷ (30, window 30 "firefox") ∷ [];
  focus = none;
  generation = 0;
}

-- Arithmetic on the few values that the tests use, where the first summand is 0.0: `50` is read as 50.0, whose hundredth is 0.5.
abbrev fifty : F64
fifty = record { bits = 0x4049000000000000 }

abbrev read_number : String → Option F64
read_number s = elim (s =? "50") [
  | true ↦ some fifty
  | false ↦ elim (s =? "0.1") [ true ↦ some tenth | false ↦ none ]
]

abbrev pub arithmetic : Arithmetic
arithmetic = record { add = λ a b. b; mul = λ a b. a; div = λ a b. half; parse = read_number }

abbrev pub platform : Platform
platform = record {
  arithmetic = arithmetic;
  regex_new = λ s. elim (s =? "(") [ true ↦ err "unclosed group" | false ↦ ok (λ t. t =? s) ];
  toml_from_str = λ s. err "no TOML";
}
