-- ===== src/Analytics/Readings.antt =====
-- What analytics/hooks.go tells of the metrics, but for the report of `GetTopMetrics`.
use gamifykit.Prelude.{ℕ}
use gamifykit.Prelude.Int.{ℤ, pos}
use gamifykit.Prelude.GoMap.{get_or}
use gamifykit.Prelude.Text.{Text, text_key}
use gamifykit.Core.{Metric, Badge}
use gamifykit.Analytics.Metrics.{Dau, ComprehensiveMetrics, count_users}

unfoldable pub count : Dau → Text → ℕ
count d day = count_users d.days day

unfoldable pub get_daily_active_users : ComprehensiveMetrics → Text → ℕ
get_daily_active_users cm day = count_users cm.daily_active_users day

unfoldable pub get_weekly_active_users : ComprehensiveMetrics → Text → ℕ
get_weekly_active_users cm week = count_users cm.weekly_active_users week

unfoldable pub get_monthly_active_users : ComprehensiveMetrics → Text → ℕ
get_monthly_active_users cm month = count_users cm.monthly_active_users month

unfoldable pub get_points_awarded_by_day : ComprehensiveMetrics → Text → ℤ
get_points_awarded_by_day cm day = get_or cm.points_awarded_by_day day (pos 0)

unfoldable pub get_points_awarded_by_metric : ComprehensiveMetrics → Metric → ℤ
get_points_awarded_by_metric cm metric = get_or cm.points_awarded_by_metric metric (pos 0)

unfoldable pub get_badges_awarded_by_day : ComprehensiveMetrics → Text → ℤ
get_badges_awarded_by_day cm day = get_or cm.badges_awarded_by_day day (pos 0)

unfoldable pub get_badges_awarded_by_type : ComprehensiveMetrics → Badge → ℤ
get_badges_awarded_by_type cm badge = get_or cm.badges_awarded_by_type badge (pos 0)

unfoldable pub get_unique_badge_holders : ComprehensiveMetrics → Badge → ℕ
get_unique_badge_holders cm badge = count_users cm.unique_badge_holders badge

-- Points, badges and levels.
unfoldable pub get_realtime_stats : ComprehensiveMetrics → ℤ × ℤ × ℤ
get_realtime_stats cm =
    let c = cm.realtime_counters in (c.points_awarded, c.badges_awarded, c.levels_reached)
