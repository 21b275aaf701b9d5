-- ===== src/Tests/CoreTests.antt =====
-- The theorems on core/ at concrete inputs.
use gamifykit.Prelude.{◌≡◌, ◌≢◌, ◌↔◌, ◌⊎◌, refl, none, [], ok, err, ◌∷◌}
use gamifykit.Prelude.Int.{pos, negsuc, ◌+ℤ◌, ◌≤ℤ◌, IsInt64, int_laws, max_int64}
use gamifykit.Prelude.Text.{text, text_key}
use gamifykit.Core.{Badge, integer_overflow, metric_xp, UserState}
use gamifykit.Core.Arith.{add_safe, add_safe_exact}
use gamifykit.Core.UserName.{
  trim_space, trim_left, trim_right, normalize_user_id, normalize_user_id_idem, is_space, lower,
}
use gamifykit.Core.BadgeName.{validate_badge_id, validate_badge_id_lem, AllBadgeChars}
use gamifykit.Core.Level.{default_level, default_level_mono}
use gamifykit.Tests.Instances.{ascii_table, whole_floats}

add_safe_exact_example :
    (IsInt64 (max_int64 +ℤ pos 1) × (add_safe max_int64 (pos 1) ≡ ok (max_int64 +ℤ pos 1)))
    ⊎ ((¬ IsInt64 (max_int64 +ℤ pos 1)) × (add_safe max_int64 (pos 1) ≡ err integer_overflow))
add_safe_exact_example = add_safe_exact max_int64 (pos 1) (omega int_laws) (omega int_laws)

normalize_user_id_idem_example :
    (text "alice" ≢ [])
    × (trim_space (text "alice") ≡ text "alice")
    × (normalize_user_id ascii_table (text "alice") ≡ ok (text "alice"))
unfolding normalize_user_id trim_space trim_left trim_right is_space lower
normalize_user_id_idem_example = normalize_user_id_idem ascii_table (text " Alice ") refl

abbrev streak_badge : Badge
streak_badge = text "streak_7"

validate_badge_id_lem_example :
    (validate_badge_id streak_badge ≡ none)
    ↔ ((trim_space streak_badge ≢ []) × AllBadgeChars (trim_space streak_badge))
validate_badge_id_lem_example = validate_badge_id_lem streak_badge

default_level_mono_example :
    (pos 1 ≤ℤ default_level whole_floats (negsuc 4))
    × (default_level whole_floats (negsuc 4) ≤ℤ default_level whole_floats (pos 250))
default_level_mono_example =
    default_level_mono whole_floats (negsuc 4) (pos 250) (omega int_laws) (omega int_laws)

abbrev experienced : UserState
experienced = record {
  user_id = text "alice";
  points = (metric_xp, pos 250) ∷ [];
  badges = (streak_badge, tt) ∷ [];
  levels = (metric_xp, pos 2) ∷ [];
  updated = 0;
}
