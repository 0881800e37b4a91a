-- ===== src/Config.antt =====
-- config.rs: the rules of attention, their validation and the choice of a rule for a window.
pub mod Resolve
pub mod Validate
pub mod Load
use melibea.Base.{
  ℕ, ◌+◌, ◌≡◌, Bool, true, false, ◌&&◌, String, List, [], ◌∷◌, Option, none, some, Result, ok, err,
  map_err, ◌>>=◌, if◌then◌else◌, is_none, is_empty,
}
use melibea.Base.Float.{F64, Arithmetic}
use melibea.Base.Text.{text_is_empty}
use melibea.Attention.{
  WidthPolicy, AttentionPolicy, WidthParseError, invalid_proportion, new_proportion, from_str,
}

-- A compiled `regex::Regex`, by its `is_match`.
abbrev pub Regex : Type 0
Regex = String → Bool

pub record WindowIdentity : Type 0 where
  pub app_id : Option String
  pub title : Option String

pub record AttentionRule : Type 0 where
  pub app_id : Option Regex
  pub title : Option Regex
  pub policy : AttentionPolicy

pub record Config : Type 0 where
  pub attention : List AttentionRule

pub record ResolvedRule : Type 0 where
  pub index : ℕ
  pub rule : AttentionRule

unfoldable pub matches_optional_pattern : Option Regex → Option String → Bool
matches_optional_pattern none value = true
matches_optional_pattern (some regex) none = false
matches_optional_pattern (some regex) (some candidate) = regex candidate

-- `AttentionRule::matches`
unfoldable pub rule_matches : AttentionRule → WindowIdentity → Bool
unfolding matches_optional_pattern
rule_matches rule window =
    matches_optional_pattern rule.app_id window.app_id
    && matches_optional_pattern rule.title window.title

-- `enumerate().find(..)` from a position on.
unfoldable pub resolve_from : ℕ → List AttentionRule → WindowIdentity → Option ResolvedRule
resolve_from index [] window = none
resolve_from index (rule ∷ rules) window =
    let rest = resolve_from (index + 1) rules window in
    if rule_matches rule window then some (record { index = index; rule = rule }) else rest

-- `Config::resolve`
unfoldable pub resolve : Config → WindowIdentity → Option ResolvedRule
resolve config window = resolve_from 0 config.attention window

pub data RawWidth : Type 0 where
  text : String → RawWidth
  number : F64 → RawWidth

pub record RawAttentionRule : Type 0 where
  pub app_id : Option String
  pub title : Option String
  pub focused_width : RawWidth
  pub unfocused_width : RawWidth

pub record RawConfig : Type 0 where
  pub attention : List RawAttentionRule

-- What the text of a rule's error is made from.
pub data RuleMessage : Type 0 where
  no_matcher : RuleMessage
  invalid_regex : String → String → RuleMessage
  invalid_width : String → WidthParseError → RuleMessage

-- The file's errors carry its path.
pub data ConfigError : Type 0 where
  read : String → String → ConfigError
  at_path : String → ConfigError → ConfigError
  toml : String → ConfigError
  no_attention_rules : ConfigError
  rule : ℕ → RuleMessage → ConfigError

-- What the code calls and does not implement: the regex compiler and the TOML reader, which give
-- their error as a text, and floating-point arithmetic.
pub record Platform : Type 0 where
  pub arithmetic : Arithmetic
  pub regex_new : String → Result String Regex
  pub toml_from_str : String → Result String RawConfig

unfoldable pub rule_error : ℕ → RuleMessage → ConfigError
rule_error index message = rule (index + 1) message

module _ (p : Platform) where
  unfoldable pub compile_pattern : ℕ → String → Option String → Result ConfigError (Option Regex)
  unfolding rule_error
  compile_pattern index field none = ok none
  compile_pattern index field (some value) =
      map_err (λ error. rule_error index (invalid_regex field error)) (p.regex_new value)
      >>= λ regex. ok (some regex)

  unfoldable pub parse_width : ℕ → String → RawWidth → Result ConfigError WidthPolicy
  unfolding rule_error
  parse_width index field (text value) =
      map_err (λ error. rule_error index (invalid_width field error)) (from_str p.arithmetic value)
  parse_width index field (number value) =
      map_err (λ error. rule_error index (invalid_width field (invalid_proportion error)))
        (new_proportion value)

  -- `AttentionRule::try_from_raw`
  unfoldable pub try_from_raw : ℕ → RawAttentionRule → Result ConfigError AttentionRule
  unfolding compile_pattern parse_width
  try_from_raw index raw =
      if is_none raw.app_id && is_none raw.title then err (rule_error index no_matcher) else do
        app_id ← compile_pattern index "app_id" raw.app_id
        title ← compile_pattern index "title" raw.title
        focused ← parse_width index "focused_width" raw.focused_width
        unfocused ← parse_width index "unfocused_width" raw.unfocused_width
        ok (record {
          app_id = app_id;
          title = title;
          policy = record { focused = focused; unfocused = unfocused };
        })

  -- `enumerate().map(..).collect::<Result<Vec<_>, _>>()` from a position on.
  unfoldable pub try_from_raw_all :
      ℕ → List RawAttentionRule → Result ConfigError (List AttentionRule)
  try_from_raw_all index [] = ok []
  try_from_raw_all index (raw ∷ raws) = do
    first ← try_from_raw index raw
    rules ← try_from_raw_all (index + 1) raws
    ok (first ∷ rules)

  -- `Config::from_raw`
  unfoldable pub from_raw : RawConfig → Result ConfigError Config
  from_raw raw =
      if is_empty raw.attention
      then err no_attention_rules
      else (try_from_raw_all 0 raw.attention >>= λ attention. ok (record { attention = attention }))

  -- `Config::parse`
  unfoldable pub parse : String → Result ConfigError Config
  parse input = map_err toml (p.toml_from_str input) >>= from_raw
