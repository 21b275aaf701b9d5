-- ===== src/Analytics/Aggregation.antt =====
-- analytics/aggregation.go: the aggregates of days, weeks and months. The engine holds the metrics
-- by a pointer that others hold as well, so that they are an argument of its methods. The dates of
-- package time are a parameter.
pub mod Counts
pub mod Reports
use gamifykit.Prelude.{
  ℕ, zero, suc, ◌+◌, ◌-◌, ◌*◌, ◌/◌, ◌%◌, ◌^◌, ltb, if◌then◌else◌, List, [], ◌∷◌, map, Option, none,
  some,
}
use gamifykit.Prelude.Int.{ℤ, pos, add64}
use gamifykit.Prelude.GoMap.{GoMap, get, put}
use gamifykit.Prelude.Text.{Text, text, text_key}
use gamifykit.Core.{Metric, Badge, Time}
use gamifykit.Core.Events.{Event}
use gamifykit.Analytics.Metrics.{
  Calendar, ComprehensiveMetrics, on_event, get_week_key, get_month_key,
}
use gamifykit.Analytics.Readings.{
  get_daily_active_users, get_weekly_active_users, get_monthly_active_users,
  get_points_awarded_by_day, get_badges_awarded_by_day,
}

-- The midnight of a date, some days earlier; the weekday, 0 on Sundays; the first of the month, and
-- of the next month; and a date some days later. All in UTC.
pub record Dates : Type 0 where
  pub calendar : Calendar
  pub weekday : Time → ℕ
  pub midnight : Time → ℕ → Time
  pub first_of_month : Time → Time
  pub next_month : Time → Time
  pub add_days : Time → ℕ → Time

pub data AggregationPeriod : Type 0 where
  period_daily period_weekly period_monthly : AggregationPeriod
  other_period : Text → AggregationPeriod

pub record AggregatedData : Type 0 where
  pub period : AggregationPeriod
  pub key : Text
  pub start_time : Time
  pub end_time : Time
  pub active_users : ℕ
  pub points_awarded : ℤ
  pub points_spent : ℤ
  pub points_by_metric : GoMap Metric ℤ
  pub badges_awarded : ℤ
  pub badges_by_type : GoMap Badge ℤ
  pub levels_reached : ℤ
  pub levels_by_metric : GoMap Metric ℤ
  pub achievements_unlocked : ℤ
  pub achievements_by_type : GoMap Text ℤ
  pub created_at : Time

pub record AggregationEngine : Type 0 where
  pub daily_aggregations : GoMap Text AggregatedData
  pub weekly_aggregations : GoMap Text AggregatedData
  pub monthly_aggregations : GoMap Text AggregatedData
  pub aggregation_interval : Time
  pub last_aggregation : Time

unfoldable pub new_aggregation_engine : Time → Time → AggregationEngine
new_aggregation_engine interval now = record {
  daily_aggregations = [];
  weekly_aggregations = [];
  monthly_aggregations = [];
  aggregation_interval = interval;
  last_aggregation = now;
}

-- The aggregate that each of the methods begins with.
abbrev pub blank_data : AggregationPeriod → Text → Time → Time → Time → AggregatedData
blank_data period key start_time end_time now = record {
  period = period;
  key = key;
  start_time = start_time;
  end_time = end_time;
  active_users = 0;
  points_awarded = pos 0;
  points_spent = pos 0;
  points_by_metric = [];
  badges_awarded = pos 0;
  badges_by_type = [];
  levels_reached = pos 0;
  levels_by_metric = [];
  achievements_unlocked = pos 0;
  achievements_by_type = [];
  created_at = now;
}

-- 24 hours, in nanoseconds
abbrev pub day_length : ℕ
day_length = 24 * 3600 * 10 ^ 9

-- `int(now.Weekday()-time.Monday) % 7`, and 7 more where it is negative.
unfoldable pub days_since_monday : ℕ → ℕ
days_since_monday weekday = if ltb weekday 1 then 7 - (1 - weekday) else (weekday - 1) % 7

-- `for i := 0; i < n; i++`, where `i` is the first round: what the days add to an aggregate.
unfoldable pub add_days_from :
    (ℕ → Text) → ComprehensiveMetrics → ℕ → ℕ → AggregatedData → AggregatedData
add_days_from day_key cm i zero agg = agg
add_days_from day_key cm i (suc n) agg = add_days_from day_key cm (i + 1) n (record agg {
  points_awarded = add64 agg.points_awarded (get_points_awarded_by_day cm (day_key i));
  badges_awarded = add64 agg.badges_awarded (get_badges_awarded_by_day cm (day_key i));
})

unfoldable pub get_aggregated_data :
    AggregationEngine → AggregationPeriod → Text → Option AggregatedData
get_aggregated_data ae period_daily key = get ae.daily_aggregations key
get_aggregated_data ae period_weekly key = get ae.weekly_aggregations key
get_aggregated_data ae period_monthly key = get ae.monthly_aggregations key
get_aggregated_data ae (other_period _) key = none

abbrev pub values : GoMap Text AggregatedData → List AggregatedData
values m = map (λ entry. entry.1) m

unfoldable pub get_all_aggregated_data : AggregationEngine → AggregationPeriod → List AggregatedData
get_all_aggregated_data ae period_daily = values ae.daily_aggregations
get_all_aggregated_data ae period_weekly = values ae.weekly_aggregations
get_all_aggregated_data ae period_monthly = values ae.monthly_aggregations
get_all_aggregated_data ae (other_period _) = []

module _ (dates : Dates) where
  -- The hook of the engine is the metrics themselves.
  unfoldable engine_on_event : ComprehensiveMetrics → Time → Event → ComprehensiveMetrics
  engine_on_event hook now e = on_event dates.calendar hook now e

  -- The days of a week or a month, by their place in it.
  abbrev pub day_key : Time → ℕ → Text
  day_key start i = dates.calendar.format_day (dates.add_days start i)

  unfoldable pub aggregate_daily :
      AggregationEngine → ComprehensiveMetrics → Time → AggregationEngine
  aggregate_daily ae cm now =
      let today = dates.calendar.format_day now in
      let start_time = dates.midnight now 0 in
      record ae {
        daily_aggregations =
            put ae.daily_aggregations today
              (record (blank_data period_daily today start_time (start_time + day_length) now) {
                active_users = get_daily_active_users cm today;
                points_awarded = get_points_awarded_by_day cm today;
                badges_awarded = get_badges_awarded_by_day cm today;
              });
      }

  abbrev pub week_start : Time → Time
  week_start now = dates.midnight now (days_since_monday (dates.weekday now))

  unfoldable pub aggregate_weekly :
      AggregationEngine → ComprehensiveMetrics → Time → AggregationEngine
  aggregate_weekly ae cm now =
      let week_key = get_week_key dates.calendar now in
      let start_time = week_start now in
      record ae {
        weekly_aggregations = put ae.weekly_aggregations week_key (
            add_days_from (day_key start_time) cm 0 7
              (record (blank_data period_weekly week_key start_time (start_time + 7 * day_length)
                now) { active_users = get_weekly_active_users cm week_key }));
      }

  -- `int(endTime.Sub(startTime).Hours() / 24)`: whole days, which float64 has exactly.
  abbrev pub days_in_month : Time → ℕ
  days_in_month start_time = (dates.next_month start_time - start_time) / day_length

  unfoldable pub aggregate_monthly :
      AggregationEngine → ComprehensiveMetrics → Time → AggregationEngine
  aggregate_monthly ae cm now =
      let month_key = get_month_key dates.calendar now in
      let start_time = dates.first_of_month now in
      record ae {
        monthly_aggregations = put ae.monthly_aggregations month_key (
            add_days_from (day_key start_time) cm 0 (days_in_month start_time)
              (record (blank_data period_monthly month_key start_time (dates.next_month start_time)
                now) { active_users = get_monthly_active_users cm month_key }));
      }

  -- None of the three returns an error, so that `AggregateNow` returns none.
  unfoldable pub aggregate_now : AggregationEngine → ComprehensiveMetrics → Time → AggregationEngine
  aggregate_now ae cm now =
      let ae' = aggregate_monthly (aggregate_weekly (aggregate_daily ae cm now) cm now) cm now in
      record ae' { last_aggregation = now }
