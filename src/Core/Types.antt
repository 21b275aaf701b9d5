-- ===== src/Core/Types.antt =====
-- core/types.go: identifiers, the state of a user, and the errors of the whole program.
use gamifykit.Prelude.{ℕ}
use gamifykit.Prelude.Int.{ℤ}
use gamifykit.Prelude.GoMap.{GoMap, GoSet}
use gamifykit.Prelude.Text.{Text, text}

abbrev pub UserId : Type 0
UserId = Text

abbrev pub Metric : Type 0
Metric = Text

abbrev pub Badge : Type 0
Badge = Text

abbrev pub metric_xp : Metric
metric_xp = text "xp"

abbrev pub metric_points : Metric
metric_points = text "points"

-- A `time.Time`, in nanoseconds.
abbrev pub Time : Type 0
Time = ℕ

-- The errors that the program makes, by the text they carry.
pub data Error : Type 0 where
  integer_overflow empty_user_id empty_badge_id invalid_badge_id delta_zero : Error
  -- an error of the storage backend
  backend : Text → Error

-- The level and point maps hold int64 values.
pub record UserState : Type 0 where
  pub user_id : UserId
  pub points : GoMap Metric ℤ
  pub badges : GoSet Badge
  pub levels : GoMap Metric ℤ
  pub updated : Time
