-- ===== src/Core/Events.antt =====
-- core/events.go. A constructor takes the reading of the clock as its argument `now`.
use gamifykit.Prelude.{ℕ_discrete, []}
use gamifykit.Prelude.Int.{ℤ, pos}
use gamifykit.Prelude.GoMap.{Key, GoMap}
use gamifykit.Prelude.Text.{Text}
use gamifykit.Core.Types.{UserId, Metric, Badge, Time}

-- The four constants of the type, and any other string.
pub data EventType : Type 0 where
  points_added badge_awarded achievement_unlocked level_up : EventType
  other_type : Text → EventType

unfoldable pub EventType-discrete : Discrete EventType
EventType-discrete = hlevel ℕ_discrete

instance abbrev pub event_type_key : Key EventType
event_type_key = record { decide = EventType-discrete }

-- An `any` of the metadata, as far as the program tells values apart: a string, or not.
pub data AnyValue : Type 0 where
  a_string : Text → AnyValue
  not_a_string : AnyValue

pub record Event : Type 0 where
  pub typ : EventType
  pub time : Time
  pub user_id : UserId
  pub metric : Metric
  pub delta : ℤ
  pub total : ℤ
  pub badge : Badge
  pub level : ℤ
  pub metadata : GoMap Text AnyValue

-- `Event{UserID: user}`, with every other field at its zero value.
abbrev pub blank_event : UserId → Event
blank_event user = record {
  typ = other_type [];
  time = 0;
  user_id = user;
  metric = [];
  delta = pos 0;
  total = pos 0;
  badge = [];
  level = pos 0;
  metadata = [];
}

unfoldable pub new_points_added : Time → UserId → Metric → ℤ → ℤ → Event
new_points_added now user metric delta total = record (blank_event user) {
  typ = points_added;
  time = now;
  metric = metric;
  delta = delta;
  total = total;
}

unfoldable pub new_badge_awarded : Time → UserId → Badge → Event
new_badge_awarded now user badge = record (blank_event user) {
  typ = badge_awarded;
  time = now;
  badge = badge;
}

unfoldable pub new_level_up : Time → UserId → Metric → ℤ → Event
new_level_up now user metric level = record (blank_event user) {
  typ = level_up;
  time = now;
  metric = metric;
  level = level;
}
