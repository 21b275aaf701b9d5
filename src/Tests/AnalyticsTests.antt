-- ===== src/Tests/AnalyticsTests.antt =====
-- The theorems on analytics/ at concrete inputs.
use mathlib.Core.List.{Perm}
use gamifykit.Prelude.{◌≡◌, ◌≤◌, ◌<◌, ◌-◌, ◌/◌, ◌++◌, refl, some, List, [], ◌∷◌, length, ite}
use gamifykit.Prelude.Int.{ℤ, pos, add64}
use gamifykit.Prelude.Text.{text}
use gamifykit.Core.{Time, metric_xp, metric_points, Metric}
use gamifykit.Core.Events.{
  Event, EventType-discrete, new_points_added, new_badge_awarded, badge_awarded,
}
use gamifykit.Analytics.Metrics.{
  Calendar, ComprehensiveMetrics, new_comprehensive_metrics, new_dau, on_event, dau_on_event,
  reset_period, get_week_key, get_month_key,
}
use gamifykit.Analytics.Metrics.Actives.{
  counted_with, on_event-counted_with, get_realtime_stats-on_event,
}
use gamifykit.Analytics.Readings.{
  get_daily_active_users, get_weekly_active_users, get_monthly_active_users,
  get_unique_badge_holders, get_realtime_stats, count,
}
use gamifykit.Analytics.Ranking.{TopMetrics, get_top_metrics, sum_map_values}
use gamifykit.Analytics.Ranking.Sorted.{IsRanked, get_top_metrics-IsRanked}
use gamifykit.Analytics.Ranking.Totals.{awarded_by, observe, observe-awarded_by}

-- Days, weeks and months counted from the start of time.
abbrev counting_calendar : Calendar
counting_calendar = record {
  format_day = λ t. t / 86400 ∷ [];
  format_month = λ t. t / 2592000 ∷ [];
  iso_week = λ t. (2000, t / 604800);
}

abbrev fresh : ComprehensiveMetrics
fresh = new_comprehensive_metrics 5

abbrev gain : Event
gain = new_points_added 7 (text "alice") metric_xp (pos 400) (pos 400)

abbrev prize : Event
prize = new_badge_awarded 9 (text "bob") (text "streak_7")

abbrev busy_day : List (Time × Event)
busy_day = (7, gain) ∷ (9, prize) ∷ (11, gain) ∷ []

observe-awarded_by_example :
    (sum_map_values (observe counting_calendar fresh busy_day).points_awarded_by_day
      ≡ awarded_by (pos 0) busy_day)
    × (sum_map_values (observe counting_calendar fresh busy_day).points_awarded_by_metric
        ≡ awarded_by (pos 0) busy_day)
observe-awarded_by_example = observe-awarded_by counting_calendar 5 busy_day

on_event-counted_with_example :
    (get_daily_active_users (on_event counting_calendar fresh 9 prize) (0 ∷ [])
      ≡ counted_with fresh.daily_active_users (0 ∷ []) (text "bob") (0 ∷ []))
    × (get_weekly_active_users (on_event counting_calendar fresh 9 prize) (0 ∷ [])
        ≡ counted_with fresh.weekly_active_users
            (get_week_key counting_calendar 9)
            (text "bob")
            (0 ∷ []))
    × (get_monthly_active_users (on_event counting_calendar fresh 9 prize) (0 ∷ [])
        ≡ counted_with fresh.monthly_active_users
            (get_month_key counting_calendar 9)
            (text "bob")
            (0 ∷ []))
    × (get_unique_badge_holders (on_event counting_calendar fresh 9 prize) (0 ∷ [])
        ≡ ite
            (EventType-discrete badge_awarded badge_awarded)
            (counted_with fresh.unique_badge_holders (text "streak_7") (text "bob") (0 ∷ []))
            (get_unique_badge_holders fresh (0 ∷ [])))
    × (count (dau_on_event counting_calendar new_dau prize) (0 ∷ [])
        ≡ get_daily_active_users (on_event counting_calendar fresh 9 prize) (0 ∷ []))
unfolding new_comprehensive_metrics new_dau new_badge_awarded
on_event-counted_with_example =
    on_event-counted_with counting_calendar fresh 9 prize new_dau (0 ∷ []) refl

get_realtime_stats-on_event_example :
    (9 - fresh.realtime_counters.last_reset ≤ reset_period
      → get_realtime_stats (on_event counting_calendar fresh 9 prize) ≡ (
        fresh.realtime_counters.points_awarded,
        add64 fresh.realtime_counters.badges_awarded (pos 1),
        fresh.realtime_counters.levels_reached,
      ))
    × (reset_period < 9 - fresh.realtime_counters.last_reset
        → get_realtime_stats (on_event counting_calendar fresh 9 prize) ≡ (pos 0, pos 0, pos 0))
unfolding new_badge_awarded new_comprehensive_metrics EventType-discrete add64
get_realtime_stats-on_event_example = get_realtime_stats-on_event counting_calendar fresh 9 prize

abbrev two_metrics : ComprehensiveMetrics
two_metrics = record fresh {
  points_awarded_by_metric = (metric_xp, pos 5) ∷ (metric_points, pos 8) ∷ [];
}

get_top_metrics-IsRanked_example :
    (r : TopMetrics) × (rest : List (Metric × ℤ)) × (get_top_metrics two_metrics (pos 1) ≡ some r)
    × Perm (r.top_metrics_by_points ++ rest) two_metrics.points_awarded_by_metric
    × IsRanked (r.top_metrics_by_points ++ rest)
    × (length r.top_metrics_by_points ≤ 1)
    × (length r.top_metrics_by_points < 1 → rest ≡ [])
get_top_metrics-IsRanked_example = get_top_metrics-IsRanked two_metrics 1
