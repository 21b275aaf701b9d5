-- ===== src/Analytics/Metrics/Actives.antt =====
-- What one event does to the counts of users and to the realtime counters.
use gamifykit.Prelude.{ℕ, suc, ◌-◌, ◌<◌, ◌≤◌, ◌≡◌, refl, arith, [], ◌∷◌, if◌then◌else◌, ite, length}
use gamifykit.Prelude.Int.{pos, add64, ltb_ℤ}
use gamifykit.Prelude.GoMap.{GoSet, get, get_or, put, get-put}
use gamifykit.Prelude.Text.{Text, Text-discrete, text_key}
use gamifykit.Core.{UserId, Time}
use gamifykit.Core.Events.{Event, EventType-discrete, badge_awarded, points_added, level_up}
use gamifykit.Engine.Storage.{is_some}
use gamifykit.Analytics.Metrics.{
  Calendar, ActiveUsers, ComprehensiveMetrics, Dau, mark, count_users, track_user_engagement,
  count_event, reset_period, reset_if_due, get_week_key, get_month_key, dau_on_event, on_event,
}
use gamifykit.Analytics.Readings.{
  count, get_daily_active_users, get_weekly_active_users, get_monthly_active_users,
  get_unique_badge_holders, get_realtime_stats,
}

length-put :
    (s : GoSet UserId) (u : UserId)
    → length (put s u tt) ≡ (if is_some (get s u) then length s else suc (length s))
unfolding get put
length-put [] u = refl
length-put ((v, _) ∷ s) u = ground (arith, length-put s u)

-- The count of `k` once `u` is marked there: one more, unless `u` was in the set.
abbrev pub counted_with : ActiveUsers → Text → UserId → Text → ℕ
counted_with m k u j =
    ite (Text-discrete k j)
      (if is_some (get (get_or m k []) u) then count_users m k else suc (count_users m k))
      (count_users m j)

count_users-mark :
    (m : ActiveUsers) (k : Text) (u : UserId) (j : Text)
    → count_users (mark m k u) j ≡ counted_with m k u j
unfolding count_users mark
count_users-mark m k u j =
    ground (arith, get-put m k j (put (get_or m k []) u tt), length-put (get_or m k []) u)

module _ (calendar : Calendar) where
  -- Every event counts its user once for its day, its week and its month, and for no other; a
  -- badge event counts the user once as a holder of the badge, and no other event changes the
  -- holders; and a `DAU` that has the daily users of the metrics before the event counts the same
  -- users by day after it.
  pub on_event-counted_with :
      (cm : ComprehensiveMetrics) (now : Time) (e : Event) (d : Dau) (key : Text)
      → d.days ≡ cm.daily_active_users
      → let cm' = on_event calendar cm now e in
        (get_daily_active_users cm' key
          ≡ counted_with cm.daily_active_users (calendar.format_day e.time) e.user_id key)
        × (get_weekly_active_users cm' key
            ≡ counted_with cm.weekly_active_users (get_week_key calendar e.time) e.user_id key)
        × (get_monthly_active_users cm' key
            ≡ counted_with cm.monthly_active_users (get_month_key calendar e.time) e.user_id key)
        × (get_unique_badge_holders cm' key
            ≡ ite
                (EventType-discrete e.typ badge_awarded)
                (counted_with cm.unique_badge_holders e.badge e.user_id key)
                (get_unique_badge_holders cm key))
        × (count (dau_on_event calendar d e) key ≡ get_daily_active_users cm' key)
  unfolding on_event count_event track_user_engagement EventType-discrete dau_on_event
      get_daily_active_users get_weekly_active_users get_monthly_active_users
      get_unique_badge_holders count
  on_event-counted_with cm now e d key h = ground (
    arith,
    count_users-mark cm.daily_active_users (calendar.format_day e.time) e.user_id key,
    count_users-mark cm.weekly_active_users (get_week_key calendar e.time) e.user_id key,
    count_users-mark cm.monthly_active_users (get_month_key calendar e.time) e.user_id key,
    count_users-mark cm.unique_badge_holders e.badge e.user_id key,
  )

  -- The realtime counters: an event that comes at most 24 hours after the last reset is added to
  -- them; one that comes later is counted and then reset away with all the others, so that it
  -- leaves three zeros.
  pub get_realtime_stats-on_event :
      (cm : ComprehensiveMetrics) (now : Time) (e : Event)
      → let c = cm.realtime_counters in
        let stats = get_realtime_stats (on_event calendar cm now e) in
        (now - c.last_reset ≤ reset_period
          → stats ≡ (
            ite
                (EventType-discrete e.typ points_added)
                (if ltb_ℤ (pos 0) e.delta then add64 c.points_awarded e.delta else c.points_awarded)
                c.points_awarded,
            ite
                (EventType-discrete e.typ badge_awarded)
                (add64 c.badges_awarded (pos 1))
                c.badges_awarded,
            ite
                (EventType-discrete e.typ level_up)
                (add64 c.levels_reached (pos 1))
                c.levels_reached,
          ))
        × (reset_period < now - c.last_reset → stats ≡ (pos 0, pos 0, pos 0))
  unfolding on_event count_event track_user_engagement EventType-discrete reset_if_due
      get_realtime_stats
  get_realtime_stats-on_event cm now e = (λ h. ground arith, λ h. ground arith)
