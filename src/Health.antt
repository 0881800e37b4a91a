-- ===== src/Health.antt =====
-- health.rs: a report on a snapshot of niri's windows.
pub mod Counts
pub mod Report
use melibea.Base.{
  ℕ, zero, suc, ◌+◌, ◌≡◌, Bool, true, false, String, List, [], ◌∷◌, Option, none, some, Result, ok,
  err, if◌then◌else◌, ltb, length, filter, map, head?, is_some,
}
use melibea.Config.{Config, WindowIdentity, resolve}
use melibea.Transition.{WindowId}
use melibea.Niri.{NiriWindow, niri_id}

pub record FocusedWindowHealth : Type 0 where
  pub id : WindowId
  pub app_id : Option String
  pub title : Option String
  pub matched_rule : Option ℕ
  pub is_floating : Bool

pub record HealthReport : Type 0 where
  pub total_windows : ℕ
  pub matched_tiled_windows : ℕ
  pub unmatched_tiled_windows : ℕ
  pub floating_windows : ℕ
  pub matched_floating_windows : ℕ
  pub matches_per_rule : List ℕ
  pub focused : Option FocusedWindowHealth

pub data HealthError : Type 0 where
  several_focused_windows : List WindowId → HealthError

abbrev pub window_identity : NiriWindow → WindowIdentity
window_identity w = record { app_id = w.app_id; title = w.title }

unfoldable pub resolve_rule : Config → NiriWindow → Option ℕ
resolve_rule config w = elim (resolve config (window_identity w)) [
  | none ↦ none
  | some r ↦ some r.index
]

-- The counters of the loop.
pub record Counters : Type 0 where
  pub matched_tiled : ℕ
  pub unmatched_tiled : ℕ
  pub floating : ℕ
  pub matched_floating : ℕ
  pub per_rule : List ℕ

-- `vec![0; n]`
abbrev pub zeros : ℕ → List ℕ
zeros zero = []
zeros (suc n) = 0 ∷ zeros n

-- `matches_per_rule[index] += 1`, where `none` is a panic.
unfoldable pub bump : List ℕ → ℕ → Option (List ℕ)
bump [] index = none
bump (n ∷ ns) zero = some ((n + 1) ∷ ns)
bump (n ∷ ns) (suc index) = elim (bump ns index) [ none ↦ none | some ms ↦ some (n ∷ ms) ]

-- One round of the loop, for a window and the rule that it matches.
unfoldable pub count_window : Bool → Option ℕ → Counters → Option Counters
count_window true matched_rule c = some (record c {
  floating = c.floating + 1;
  matched_floating = if is_some matched_rule then c.matched_floating + 1 else c.matched_floating;
})
count_window false none c = some (record c { unmatched_tiled = c.unmatched_tiled + 1 })
count_window false (some index) c = elim (bump c.per_rule index) [
  | none ↦ none
  | some per_rule ↦ some (record c { matched_tiled = c.matched_tiled + 1; per_rule = per_rule })
]

unfoldable pub count_all : Config → Counters → List NiriWindow → Option Counters
count_all config c [] = some c
count_all config c (w ∷ ws) = elim (count_window w.is_floating (resolve_rule config w) c) [
  | none ↦ none
  | some next ↦ count_all config next ws
]

abbrev pub new_counters : Config → Counters
new_counters config = record {
  matched_tiled = 0;
  unmatched_tiled = 0;
  floating = 0;
  matched_floating = 0;
  per_rule = zeros (length config.attention);
}

abbrev pub focused_health : Config → Option NiriWindow → Option FocusedWindowHealth
focused_health config none = none
focused_health config (some w) = some (record {
  id = w.id;
  app_id = w.app_id;
  title = w.title;
  matched_rule = resolve_rule config w;
  is_floating = w.is_floating;
})

abbrev pub report_of : Config → List NiriWindow → Counters → HealthReport
report_of config ws c = record {
  total_windows = length ws;
  matched_tiled_windows = c.matched_tiled;
  unmatched_tiled_windows = c.unmatched_tiled;
  floating_windows = c.floating;
  matched_floating_windows = c.matched_floating;
  matches_per_rule = c.per_rule;
  focused = focused_health config (head? (filter (λ w. w.is_focused) ws));
}

-- `HealthReport::from_windows`
unfoldable pub from_windows : Config → List NiriWindow → Option (Result HealthError HealthReport)
from_windows config ws =
    let focused = filter (λ w. w.is_focused) ws in
    if ltb 1 (length focused)
    then some (err (several_focused_windows (map niri_id focused)))
    else elim (count_all config (new_counters config) ws) [
      | none ↦ none
      | some c ↦ some (ok (report_of config ws c))
    ]
