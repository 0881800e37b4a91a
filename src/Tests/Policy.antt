-- ===== src/Tests/Policy.antt =====
-- attention.rs and config.rs.
use melibea.Base.{
  ℕ, ◌≡◌, ◌↔◌, refl, String, [], ◌∷◌, none, some, ok, err, arith, ◌=?◌, string_eq, ◌⊎◌,
}
use melibea.Base.Text.{trim, strip_suffix}
use melibea.Attention.{WidthPolicy, invalid_number, new_proportion, from_str}
use melibea.Attention.Bounds.{InRange, new_proportion_exact, from_str-preserve, from_str-InRange}
use melibea.Config.{
  RawAttentionRule, RawConfig, text, number, Config, rule, no_attention_rules, invalid_regex,
  from_raw, resolve, try_from_raw_all, try_from_raw,
}
use melibea.Config.Resolve.{MissesAt, resolve-first}
use melibea.Config.Validate.{FirstRefused, from_raw-err}
use melibea.Tests.Fixtures.{half, tenth, width, arithmetic, platform, config, kitty_rule}

parses_percent : from_str arithmetic " 50% " ≡ ok (width half)
unfolding from_str trim strip_suffix
parses_percent = refl

rejects_empty : from_str arithmetic "" ≡ err (invalid_number "")
unfolding from_str trim strip_suffix
rejects_empty = refl

new_proportion_example : new_proportion half ≡ ok (width half)
new_proportion_example = (new_proportion_exact half).0 (omega arith)

from_str-preserve_example :
    (from_str arithmetic " preserve" ≡ ok WidthPolicy.preserve) ↔ (trim " preserve" ≡ "preserve")
from_str-preserve_example = from_str-preserve arithmetic " preserve"

from_str-InRange_example : InRange (width half)
from_str-InRange_example = (from_str-InRange arithmetic " 50% ").0 (width half) parses_percent

resolve-first_example :
    (resolve config (record { app_id = some "firefox"; title = none }) ≡ none)
    ↔ ((j : ℕ) → MissesAt config.attention (record { app_id = some "firefox"; title = none }) j)
resolve-first_example = (resolve-first config (record { app_id = some "firefox"; title = none })).1

abbrev raw_rule : String → RawAttentionRule
raw_rule pattern = record {
  app_id = some pattern;
  title = none;
  focused_width = text "50%";
  unfocused_width = number tenth;
}

abbrev pub good : RawConfig
good = record { attention = raw_rule "kitty" ∷ raw_rule "code" ∷ [] }

abbrev pub loaded : Config
loaded = record {
  attention =
      record kitty_rule { app_id = some (λ t. t =? "kitty") }
      ∷ record kitty_rule { app_id = some (λ t. t =? "code") }
      ∷ [];
}

abbrev bad : RawConfig
bad = record { attention = raw_rule "kitty" ∷ raw_rule "(" ∷ [] }

from_raw-err_example :
    ((bad.attention ≡ []) × (rule 2 (invalid_regex "app_id" "unclosed group") ≡ no_attention_rules))
    ⊎ FirstRefused platform 0 bad.attention (rule 2 (invalid_regex "app_id" "unclosed group"))
unfolding from_raw try_from_raw_all try_from_raw from_str trim strip_suffix
from_raw-err_example =
    (from_raw-err platform bad (rule 2 (invalid_regex "app_id" "unclosed group"))).0 refl
