-- ===== src/Health/Report.antt =====
-- The report of health.rs.
use melibea.Base.{ℕ, ◌+◌, ◌<◌, ◌≡◌, List, some, length, filter, get_elem?, head?}
use melibea.Config.{Config}
use melibea.Niri.{NiriWindow}
use melibea.Health.{HealthReport, focused_health}
use melibea.Health.Counts.{count, tiled_for, matched_tiled, unmatched_tiled, matched_floating}

abbrev pub focused_windows : List NiriWindow → List NiriWindow
focused_windows ws = filter (λ w. w.is_focused) ws

-- Each number is the count of the windows of its kind, and the three kinds are all windows.
pub record Describes (config : Config) (ws : List NiriWindow) (r : HealthReport) : Type 0 where
  pub total : r.total_windows ≡ length ws
  pub kinds : r.matched_tiled_windows + r.unmatched_tiled_windows + r.floating_windows ≡ length ws
  pub matched : r.matched_tiled_windows ≡ count (matched_tiled config) ws
  pub unmatched : r.unmatched_tiled_windows ≡ count (unmatched_tiled config) ws
  pub floats : r.floating_windows ≡ count (λ w. w.is_floating) ws
  pub matched_floats : r.matched_floating_windows ≡ count (matched_floating config) ws
  pub rules :
      (i : ℕ)
      → i < length config.attention
      → get_elem? r.matches_per_rule i ≡ some (count (tiled_for config i) ws)
  pub as_many : length r.matches_per_rule ≡ length config.attention
  pub focus : r.focused ≡ focused_health config (head? (focused_windows ws))
