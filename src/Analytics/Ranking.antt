-- ===== src/Analytics/Ranking.antt =====
-- The report `GetTopMetrics` of analytics/hooks.go, and the sums it prints.
pub mod Sorted
pub mod Totals
use gamifykit.Prelude.{
  ℕ, zero, suc, List, [], ◌∷◌, Option, none, some, Bool, if◌then◌else◌, length, take,
}
use gamifykit.Prelude.Int.{ℤ, pos, negsuc, add64, ltb_ℤ}
use gamifykit.Prelude.GoMap.{GoMap}
use gamifykit.Prelude.Text.{Text}
use gamifykit.Core.{Metric}
use gamifykit.Analytics.Metrics.{ComprehensiveMetrics}

abbrev pub sum_from : ℤ → GoMap Text ℤ → ℤ
sum_from total [] = total
sum_from total ((_, v) ∷ m) = sum_from (add64 total v) m

-- `sumMapValues` and `sumBadgeMapValues`
unfoldable pub sum_map_values : GoMap Text ℤ → ℤ
sum_map_values m = sum_from (pos 0) m

abbrev pub winner : Metric × ℤ → Metric × ℤ → Metric × ℤ
winner x y = if ltb_ℤ x.1 y.1 then y else x

abbrev pub loser : Metric × ℤ → Metric × ℤ → Metric × ℤ
loser x y = if ltb_ℤ x.1 y.1 then x else y

-- The inner loop, for the place that `x` is at: what it ends up with, and the places behind it.
unfoldable pub exchange : Metric × ℤ → List (Metric × ℤ) → (Metric × ℤ) × List (Metric × ℤ)
exchange x [] = (x, [])
exchange x (y ∷ ys) = let (best, rest) = exchange (winner x y) ys in (best, loser x y ∷ rest)

-- The outer loop; a round for each place is enough.
unfoldable pub sort_rounds : ℕ → List (Metric × ℤ) → List (Metric × ℤ)
sort_rounds zero l = l
sort_rounds (suc n) [] = []
sort_rounds (suc n) (x ∷ xs) = let (best, rest) = exchange x xs in best ∷ sort_rounds n rest

unfoldable pub sort_by_points : List (Metric × ℤ) → List (Metric × ℤ)
sort_by_points l = sort_rounds (length l) l

-- `topMetrics[:limit]` where that is shorter; a negative limit panics, which is `none`.
unfoldable pub truncate : ℤ → List (Metric × ℤ) → Option (List (Metric × ℤ))
truncate (pos n) l = if ltb_ℤ (pos n) (pos (length l)) then some (take n l) else some l
truncate (negsuc _) l = none

pub record TopMetrics : Type 0 where
  pub top_metrics_by_points : List (Metric × ℤ)
  pub total_points_awarded : ℤ
  pub total_badges_awarded : ℤ

unfoldable pub get_top_metrics : ComprehensiveMetrics → ℤ → Option TopMetrics
get_top_metrics cm limit = elim (truncate limit (sort_by_points cm.points_awarded_by_metric)) [
  | none ↦ none
  | some top ↦ some (record {
    top_metrics_by_points = top;
    total_points_awarded = sum_map_values cm.points_awarded_by_metric;
    total_badges_awarded = sum_map_values cm.badges_awarded_by_type;
  })
]
