-- ===== src/Analytics/Metrics.antt =====
-- The trackers of analytics/hooks.go, and the bridge of analytics/metrics.go. The calendar of package time is a parameter; a lock makes
-- each call one step. In one call every reading of the clock is `now`.
pub mod Actives
use gamifykit.Prelude.{
  ℕ, ◌-◌, ◌*◌, ◌^◌, ◌++◌, Bool, List, [], ◌∷◌, Option, none, some, if◌then◌else◌, ltb, length,
}
use gamifykit.Prelude.Int.{ℤ, pos, add64, ltb_ℤ}
use gamifykit.Prelude.GoMap.{GoMap, GoSet, get, get_or, put, int_key}
use gamifykit.Prelude.Text.{Text, text, text_key}
use gamifykit.Core.{UserId, Metric, Badge, Time}
use gamifykit.Core.Events.{
  Event, AnyValue, a_string, not_a_string, points_added, badge_awarded, achievement_unlocked,
  level_up, other_type,
}
use gamifykit.Config.Checks.{decimal_on}

-- What `time.Time` says in UTC: the date as "2006-01-02", the month as "2006-01", and the ISO week
-- with its year.
pub record Calendar : Type 0 where
  pub format_day : Time → Text
  pub format_month : Time → Text
  pub iso_week : Time → ℕ × ℕ

abbrev pub ActiveUsers : Type 0
ActiveUsers = GoMap Text (GoSet UserId)

-- `m[k][u] = struct{}{}`, where the set is made if it is missing.
unfoldable pub mark : ActiveUsers → Text → UserId → ActiveUsers
mark m k u = put m k (put (get_or m k []) u tt)

-- `m[k] += d` at int64
unfoldable pub bump : GoMap Text ℤ → Text → ℤ → GoMap Text ℤ
bump m k d = put m k (add64 (get_or m k (pos 0)) d)

unfoldable pub bump_level : GoMap Metric (GoMap ℤ ℤ) → Metric → ℤ → GoMap Metric (GoMap ℤ ℤ)
bump_level m k level =
    let levels = get_or m k [] in
    put m k (put levels level (add64 (get_or levels level (pos 0)) (pos 1)))

-- `len(m[k])`, and 0 where the set is missing.
unfoldable pub count_users : ActiveUsers → Text → ℕ
count_users m k = length (get_or m k [])

pub record Dau : Type 0 where
  pub days : ActiveUsers

unfoldable pub new_dau : Dau
new_dau = record { days = [] }

pub record Counters : Type 0 where
  pub points_awarded : ℤ
  pub badges_awarded : ℤ
  pub levels_reached : ℤ
  pub last_reset : Time

pub record ComprehensiveMetrics : Type 0 where
  pub daily_active_users : ActiveUsers
  pub weekly_active_users : ActiveUsers
  pub monthly_active_users : ActiveUsers
  pub points_awarded_by_day : GoMap Text ℤ
  pub points_awarded_by_metric : GoMap Metric ℤ
  pub points_spent_by_day : GoMap Text ℤ
  pub points_spent_by_metric : GoMap Metric ℤ
  pub badges_awarded_by_day : GoMap Text ℤ
  pub badges_awarded_by_type : GoMap Badge ℤ
  pub unique_badge_holders : GoMap Badge (GoSet UserId)
  pub levels_reached_by_day : GoMap Text ℤ
  pub levels_reached_by_metric : GoMap Metric ℤ
  pub level_distribution : GoMap Metric (GoMap ℤ ℤ)
  pub achievements_unlocked_by_day : GoMap Text ℤ
  pub achievements_by_type : GoMap Text ℤ
  pub realtime_counters : Counters

unfoldable pub new_comprehensive_metrics : Time → ComprehensiveMetrics
new_comprehensive_metrics now = record {
  daily_active_users = [];
  weekly_active_users = [];
  monthly_active_users = [];
  points_awarded_by_day = [];
  points_awarded_by_metric = [];
  points_spent_by_day = [];
  points_spent_by_metric = [];
  badges_awarded_by_day = [];
  badges_awarded_by_type = [];
  unique_badge_holders = [];
  levels_reached_by_day = [];
  levels_reached_by_metric = [];
  level_distribution = [];
  achievements_unlocked_by_day = [];
  achievements_by_type = [];
  realtime_counters = record {
    points_awarded = pos 0;
    badges_awarded = pos 0;
    levels_reached = pos 0;
    last_reset = now;
  };
}

unfoldable pub track_user_engagement :
    ComprehensiveMetrics → UserId → Text → Text → Text → ComprehensiveMetrics
track_user_engagement cm user day week month = record cm {
  daily_active_users = mark cm.daily_active_users day user;
  weekly_active_users = mark cm.weekly_active_users week user;
  monthly_active_users = mark cm.monthly_active_users month user;
}

abbrev count_points : ComprehensiveMetrics → Text → Event → ComprehensiveMetrics
count_points cm day e =
    if ltb_ℤ (pos 0) e.delta
    then record cm {
      points_awarded_by_day = bump cm.points_awarded_by_day day e.delta;
      points_awarded_by_metric = bump cm.points_awarded_by_metric e.metric e.delta;
      realtime_counters = record cm.realtime_counters {
        points_awarded = add64 cm.realtime_counters.points_awarded e.delta;
      };
    }
    else cm

abbrev count_level : ComprehensiveMetrics → Text → Event → ComprehensiveMetrics
count_level cm day e = record cm {
  levels_reached_by_day = bump cm.levels_reached_by_day day (pos 1);
  levels_reached_by_metric = bump cm.levels_reached_by_metric e.metric (pos 1);
  level_distribution = bump_level cm.level_distribution e.metric e.level;
  realtime_counters = record cm.realtime_counters {
    levels_reached = add64 cm.realtime_counters.levels_reached (pos 1);
  };
}

abbrev count_badge : ComprehensiveMetrics → Text → Event → ComprehensiveMetrics
count_badge cm day e = record cm {
  badges_awarded_by_day = bump cm.badges_awarded_by_day day (pos 1);
  badges_awarded_by_type = bump cm.badges_awarded_by_type e.badge (pos 1);
  unique_badge_holders = mark cm.unique_badge_holders e.badge e.user_id;
  realtime_counters = record cm.realtime_counters {
    badges_awarded = add64 cm.realtime_counters.badges_awarded (pos 1);
  };
}

-- Metadata without a string under "achievement" counts for nothing.
abbrev count_achievement : ComprehensiveMetrics → Text → Event → ComprehensiveMetrics
count_achievement cm day e = elim (get e.metadata (text "achievement")) [
  | none ↦ cm
  | some value ↦ elim value [
    | not_a_string ↦ cm
    | a_string achievement ↦ record cm {
      achievements_unlocked_by_day = bump cm.achievements_unlocked_by_day day (pos 1);
      achievements_by_type = bump cm.achievements_by_type achievement (pos 1);
    }
  ]
]

-- The switch of `OnEvent`.
unfoldable pub count_event : ComprehensiveMetrics → Text → Event → ComprehensiveMetrics
count_event cm day e = elim (e.typ) [
  | points_added ↦ count_points cm day e
  | level_up ↦ count_level cm day e
  | badge_awarded ↦ count_badge cm day e
  | achievement_unlocked ↦ count_achievement cm day e
  | other_type _ ↦ cm
]

-- 24 hours, in nanoseconds
abbrev pub reset_period : ℕ
reset_period = 24 * 3600 * 10 ^ 9

unfoldable pub reset_if_due : Time → Counters → Counters
reset_if_due now c =
    if ltb reset_period (now - c.last_reset)
    then record {
      points_awarded = pos 0;
      badges_awarded = pos 0;
      levels_reached = pos 0;
      last_reset = now;
    }
    else c

-- `BridgeHook` of analytics/metrics.go: each hook, in turn, does to the state `W` what it does.
unfoldable pub bridge_on_event {ℓ} : {W : Type ℓ} → List (Event → W → W) → Event → W → W
bridge_on_event [] e w = w
bridge_on_event (h ∷ hooks) e w = bridge_on_event hooks e (h e w)

module _ (calendar : Calendar) where
  -- "%d-W%02d"
  unfoldable pub get_week_key : Time → Text
  get_week_key t =
      let (year, week) = calendar.iso_week t in
      decimal_on year year
      ++ text "-W"
      ++ (if ltb week 10 then text "0" else [])
      ++ decimal_on week week

  unfoldable pub get_month_key : Time → Text
  get_month_key t = calendar.format_month t

  unfoldable pub dau_on_event : Dau → Event → Dau
  dau_on_event d e = record d { days = mark d.days (calendar.format_day e.time) e.user_id }

  unfoldable pub on_event : ComprehensiveMetrics → Time → Event → ComprehensiveMetrics
  on_event cm now e =
      let day = calendar.format_day e.time in
      let tracked =
        track_user_engagement cm e.user_id day (get_week_key e.time) (get_month_key e.time) in
      let counted = count_event tracked day e in
      record counted { realtime_counters = reset_if_due now counted.realtime_counters }
