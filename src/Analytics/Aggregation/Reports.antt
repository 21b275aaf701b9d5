-- ===== src/Analytics/Aggregation/Reports.antt =====
-- The aggregates that AggregateNow stores, for metrics that have seen a run of events.
use gamifykit.Prelude.{
  ℕ, zero, suc, ◌+◌, ◌-◌, ◌%◌, ◌<◌, ◌≤◌, ◌≡◌, ◌≢◌, refl, ap, sym, subst, Bool, ◌∙◌, arith, List, [],
  Option, some, none, ite,
}
use gamifykit.Prelude.Int.{ℤ, pos, add64}
use gamifykit.Prelude.GoMap.{GoMap, get, put, get-put}
use gamifykit.Prelude.Text.{Text, text_key}
use gamifykit.Core.{Time}
use gamifykit.Core.Events.{Event}
use gamifykit.Analytics.Metrics.{
  ComprehensiveMetrics, new_comprehensive_metrics, get_week_key, get_month_key,
}
use gamifykit.Analytics.Readings.{
  get_points_awarded_by_day, get_badges_awarded_by_day, get_daily_active_users,
  get_weekly_active_users, get_monthly_active_users,
}
use gamifykit.Analytics.Ranking.Totals.{observe}
use gamifykit.Analytics.Aggregation.{
  Dates, period_daily, period_weekly, period_monthly, AggregatedData, AggregationEngine,
  add_days_from, day_key, days_since_monday, days_in_month, aggregate_daily, aggregate_weekly,
  aggregate_monthly, aggregate_now, get_aggregated_data,
}
use gamifykit.Analytics.Aggregation.Counts.{
  points_of, badge_of, count_when, is_among, is_key, on_day, sum_over, add_days_from_sums,
  observe_sum, observe_day, IsRegular,
}

sum_over_empty : (days : ℕ → Text) (i n : ℕ) → sum_over days [] i n (pos 0) ≡ pos 0
unfolding add64 get gamifykit.Prelude.Int.wrap64 gamifykit.Prelude.Int.◌+ℤ◌
sum_over_empty days i zero = refl
sum_over_empty days i (suc n) = sum_over_empty days (i + 1) n

-- The last Monday is less than a week ago.
since_monday :
    (weekday : ℕ)
    → weekday < 7
    → (days_since_monday weekday < 7) × ((weekday + 7 - days_since_monday weekday) % 7 ≡ 1)
unfolding days_since_monday
since_monday weekday h = (ground (arith, h), ground (arith, h))

stored :
    (m : GoMap Text AggregatedData) (k : Text) (agg : AggregatedData)
    → get (put m k agg) k ≡ some agg
stored m k agg = ground (arith, get-put m k k agg)

module _ (dates : Dates) (regular : IsRegular dates) (start : Time) (es : List (Time × Event)) where
  abbrev seen : ComprehensiveMetrics
  seen = observe dates.calendar (new_comprehensive_metrics start) es

  -- The aggregate counts the events of the days that satisfy `p`.
  abbrev pub Counts : (Text → Bool) → ℕ → Option AggregatedData → Type 0
  Counts p users found =
      (agg : AggregatedData) × (found ≡ some agg)
      × (agg.points_awarded ≡ count_when points_of (on_day dates p) (pos 0) es)
      × (agg.badges_awarded ≡ count_when badge_of (on_day dates p) (pos 0) es)
      × (agg.active_users ≡ users)

  days_counted :
      (days : ℕ → Text) (n : ℕ) (blank : AggregatedData)
      → ((a b : ℕ) → 0 ≤ a → a < b → b < 0 + n → days a ≢ days b)
      → blank.points_awarded ≡ pos 0
      → blank.badges_awarded ≡ pos 0
      → Counts (is_among days 0 n) blank.active_users (some (add_days_from days seen 0 n blank))
  unfolding new_comprehensive_metrics
  days_counted days n blank apart p0 b0 =
      let (points, badges, users) = add_days_from_sums days seen 0 n blank in
      let (ps, bs) = observe_sum dates days n (new_comprehensive_metrics start) es apart in
      let begun = sum_over_empty days 0 n in
      (
        add_days_from days seen 0 n blank,
        refl,
        points
            ∙ ap (sum_over days seen.points_awarded_by_day 0 n) p0
            ∙ ps
            ∙ ap (λ t. count_when points_of (on_day dates (is_among days 0 n)) t es) begun,
        badges
            ∙ ap (sum_over days seen.badges_awarded_by_day 0 n) b0
            ∙ bs
            ∙ ap (λ t. count_when badge_of (on_day dates (is_among days 0 n)) t es) begun,
        users,
      )

  month_days : (t : Time) → days_in_month dates (dates.first_of_month t) ≡ regular.month_length t
  month_days t = omega (arith, regular.month_end t)

  -- For metrics that have seen a run of events since they were made, in a regular calendar: behind AggregateNow the aggregate of the day counts the positive
  -- deltas of the points events of the day and its badge events, at int64; that of the week counts
  -- the events of the seven days from the last Monday on, at most six days back, and that of the
  -- month those of all days of the month; and each has the number of active users of its period.
  pub aggregate_now-Counts :
      (ae : AggregationEngine) (now : Time)
      → let after = aggregate_now dates ae seen now in
        let today = dates.calendar.format_day now in
        let week_key = get_week_key dates.calendar now in
        let month_key = get_month_key dates.calendar now in
        let month = dates.first_of_month now in
        Counts
          (is_key dates today)
          (get_daily_active_users seen today)
          (get_aggregated_data after period_daily today)
        × ((back : ℕ) × (back < 7)
            × (dates.weekday (dates.midnight now back) ≡ 1)
            × Counts
                (is_among (day_key dates (dates.midnight now back)) 0 7)
                (get_weekly_active_users seen week_key)
                (get_aggregated_data after period_weekly week_key))
        × Counts
            (is_among (day_key dates month) 0 (regular.month_length now))
            (get_monthly_active_users seen month_key)
            (get_aggregated_data after period_monthly month_key)
  unfolding aggregate_now aggregate_daily aggregate_weekly aggregate_monthly get_aggregated_data
      get_points_awarded_by_day get new_comprehensive_metrics get_badges_awarded_by_day
  aggregate_now-Counts ae now =
      let today = dates.calendar.format_day now in
      let back = days_since_monday (dates.weekday now) in
      let week = dates.midnight now back in
      let month = dates.first_of_month now in
      let (ps, bs) = observe_day dates today (new_comprehensive_metrics start) es in
      let (near, monday) = since_monday (dates.weekday now) (regular.weekday_small now) in
      (
        (_, stored ae.daily_aggregations today _, ps, bs, refl),
        (
          back,
          near,
          regular.weekday_before now back near ∙ monday,
          subst (Counts (is_among (day_key dates week) 0 7) _)
              (sym (stored ae.weekly_aggregations (get_week_key dates.calendar now) _))
              (days_counted (day_key dates week) 7 _
                (λ a b l k m. regular.keys_differ week a b k (omega arith)) refl refl),
        ),
        subst (Counts (is_among (day_key dates month) 0 (regular.month_length now)) _)
            (sym (stored ae.monthly_aggregations (get_month_key dates.calendar now) _))
            (rw (month_days now) (
              days_counted (day_key dates month) (regular.month_length now) _
                (λ a b l k m.
                  regular.keys_differ month a b k (omega (arith, m, regular.short_months now)))
                refl refl)),
      )
