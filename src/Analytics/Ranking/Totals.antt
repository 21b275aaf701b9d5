-- ===== src/Analytics/Ranking/Totals.antt =====
-- The sums of the point tables over a run of events.
use gamifykit.Prelude.{◌≡◌, refl, arith, List, [], ◌∷◌, if◌then◌else◌, ite}
use gamifykit.Prelude.Int.{ℤ, pos, add64, ltb_ℤ}
use gamifykit.Prelude.Wrap.{add64_right_comm, add64_assoc, add64_zero_left}
use gamifykit.Prelude.GoMap.{GoMap, get, put}
use gamifykit.Prelude.Text.{Text, text_key}
use gamifykit.Core.{Time}
use gamifykit.Core.Events.{Event, EventType-discrete, points_added}
use gamifykit.Analytics.Metrics.{
  Calendar, ComprehensiveMetrics, new_comprehensive_metrics, bump, count_event,
  track_user_engagement, on_event,
}
use gamifykit.Analytics.Ranking.{sum_from, sum_map_values}

sum_from-add64 :
    (total d : ℤ) (m : GoMap Text ℤ) → sum_from (add64 total d) m ≡ add64 (sum_from total m) d
sum_from-add64 total d [] = refl
sum_from-add64 total d ((k, v) ∷ m) =
    ground (arith, add64_right_comm total d v, sum_from-add64 (add64 total v) d m)

sum_from-bump :
    (total : ℤ) (m : GoMap Text ℤ) (k : Text) (d : ℤ)
    → sum_from total (bump m k d) ≡ add64 (sum_from total m) d
unfolding bump get put
sum_from-bump total [] k d = add64_zero_left total d
sum_from-bump total ((j, v) ∷ m) k d = ground (
  arith,
  sum_from-bump (add64 total v) m k d,
  add64_assoc total v d,
  sum_from-add64 (add64 total v) d m,
)

-- The sum after one event: only a points event with a positive delta counts.
abbrev pub awarded_after : ℤ → Event → ℤ
awarded_after total e =
    ite (EventType-discrete e.typ points_added)
      (if ltb_ℤ (pos 0) e.delta then add64 total e.delta else total) total

abbrev pub awarded_by : ℤ → List (Time × Event) → ℤ
awarded_by total [] = total
awarded_by total ((_, e) ∷ es) = awarded_by (awarded_after total e) es

module _ (calendar : Calendar) where
  unfoldable pub observe : ComprehensiveMetrics → List (Time × Event) → ComprehensiveMetrics
  observe cm [] = cm
  observe cm ((now, e) ∷ es) = observe (on_event calendar cm now e) es

  on_event-awarded_after :
      (cm : ComprehensiveMetrics) (now : Time) (e : Event)
      → (sum_map_values (on_event calendar cm now e).points_awarded_by_day
          ≡ awarded_after (sum_map_values cm.points_awarded_by_day) e)
        × (sum_map_values (on_event calendar cm now e).points_awarded_by_metric
            ≡ awarded_after (sum_map_values cm.points_awarded_by_metric) e)
  unfolding on_event count_event track_user_engagement sum_map_values EventType-discrete
  on_event-awarded_after cm now e = ground (
    arith,
    sum_from-bump (pos 0) cm.points_awarded_by_day (calendar.format_day e.time) e.delta,
    sum_from-bump (pos 0) cm.points_awarded_by_metric e.metric e.delta,
  )

  observe_totals :
      (cm : ComprehensiveMetrics) (es : List (Time × Event))
      → (sum_map_values (observe cm es).points_awarded_by_day
          ≡ awarded_by (sum_map_values cm.points_awarded_by_day) es)
        × (sum_map_values (observe cm es).points_awarded_by_metric
            ≡ awarded_by (sum_map_values cm.points_awarded_by_metric) es)
  unfolding observe
  observe_totals cm [] = (refl, refl)
  observe_totals cm ((now, e) ∷ es) =
      let (day, metric) = on_event-awarded_after cm now e in
      rw (← day, ← metric) (observe_totals (on_event calendar cm now e) es)

  -- Whatever events the metrics have seen since they were made: the points by day and the points
  -- by metric have the same sum, that of the positive deltas of the points events, at int64.
  pub observe-awarded_by :
      (start : Time) (es : List (Time × Event))
      → let cm = observe (new_comprehensive_metrics start) es in
        (sum_map_values cm.points_awarded_by_day ≡ awarded_by (pos 0) es)
        × (sum_map_values cm.points_awarded_by_metric ≡ awarded_by (pos 0) es)
  unfolding new_comprehensive_metrics sum_map_values
  observe-awarded_by start es = observe_totals (new_comprehensive_metrics start) es
