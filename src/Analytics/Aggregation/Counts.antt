-- ===== src/Analytics/Aggregation/Counts.antt =====
-- What the aggregates count of a run of events.
use gamifykit.Prelude.{
  ℕ, zero, suc, ◌+◌, ◌-◌, ◌*◌, ◌%◌, ◌<◌, ◌≤◌, ◌≡◌, ◌≢◌, refl, ap, ◌∙◌, arith, Bool, true, false,
  List, [], ◌∷◌, Option, none, some, ite, if◌then◌else◌,
}
use gamifykit.Prelude.Int.{ℤ, pos, add64, ltb_ℤ}
use gamifykit.Prelude.Wrap.{add64_right_comm, add64_assoc}
use gamifykit.Prelude.GoMap.{GoMap, get_or, get-put}
use gamifykit.Prelude.Text.{Text, Text-discrete, text_key}
use gamifykit.Core.{Time}
use gamifykit.Core.Events.{Event, EventType-discrete, points_added, badge_awarded}
use gamifykit.Analytics.Metrics.{
  ComprehensiveMetrics, bump, count_event, track_user_engagement, on_event,
}
use gamifykit.Analytics.Readings.{get_points_awarded_by_day, get_badges_awarded_by_day}
use gamifykit.Analytics.Ranking.Totals.{observe}
use gamifykit.Analytics.Aggregation.{Dates, AggregatedData, add_days_from, day_key}

-- What an event adds to the points, and to the badges, of its day.
abbrev pub points_of : Event → Option ℤ
points_of e =
    ite (EventType-discrete e.typ points_added)
      (if ltb_ℤ (pos 0) e.delta then some e.delta else none) none

abbrev pub badge_of : Event → Option ℤ
badge_of e = ite (EventType-discrete e.typ badge_awarded) (some (pos 1)) none

abbrev pub counted : Option ℤ → ℤ → ℤ
counted none total = total
counted (some d) total = add64 total d

-- The events of the days that satisfy `p`, summed up from `total`.
abbrev pub count_when : (Event → Option ℤ) → (Event → Bool) → ℤ → List (Time × Event) → ℤ
count_when w p total [] = total
count_when w p total ((_, e) ∷ es) = count_when w p (if p e then counted (w e) total else total) es

-- `k` is the key of one of the `n` days from `i` on.
abbrev pub is_among : (ℕ → Text) → ℕ → ℕ → Text → Bool
is_among days i zero k = false
is_among days i (suc n) k = ite (Text-discrete (days i) k) true (is_among days (i + 1) n k)

abbrev pub sum_over : (ℕ → Text) → GoMap Text ℤ → ℕ → ℕ → ℤ → ℤ
sum_over days m i zero total = total
sum_over days m i (suc n) total =
    sum_over days m (i + 1) n (add64 total (get_or m (days i) (pos 0)))

pub add_days_from_sums :
    (days : ℕ → Text) (cm : ComprehensiveMetrics) (i n : ℕ) (agg : AggregatedData)
    → ((add_days_from days cm i n agg).points_awarded
        ≡ sum_over days cm.points_awarded_by_day i n agg.points_awarded)
      × ((add_days_from days cm i n agg).badges_awarded
          ≡ sum_over days cm.badges_awarded_by_day i n agg.badges_awarded)
      × ((add_days_from days cm i n agg).active_users ≡ agg.active_users)
unfolding add_days_from get_points_awarded_by_day get_badges_awarded_by_day
add_days_from_sums days cm i zero agg = (refl, refl, refl)
add_days_from_sums days cm i (suc n) agg = add_days_from_sums days cm (i + 1) n _

sum_over-add64 :
    (days : ℕ → Text) (m : GoMap Text ℤ) (i n : ℕ) (total d : ℤ)
    → sum_over days m i n (add64 total d) ≡ add64 (sum_over days m i n total) d
sum_over-add64 days m i zero total d = refl
sum_over-add64 days m i (suc n) total d = ground (
  arith,
  add64_right_comm total d (get_or m (days i) (pos 0)),
  sum_over-add64 days m (i + 1) n (add64 total (get_or m (days i) (pos 0))) d,
)

-- The `n` days from `i` on have different keys.
abbrev pub Apart : (ℕ → Text) → ℕ → ℕ → Type 0
Apart days i n = (a b : ℕ) → i ≤ a → a < b → b < i + n → days a ≢ days b

not_among :
    (days : ℕ → Text) (k : Text) (i n : ℕ)
    → ((b : ℕ) → i ≤ b → b < i + n → k ≢ days b)
    → is_among days i n k ≡ false
not_among days k i zero h = refl
not_among days k i (suc n) h =
    let rest = not_among days k (i + 1) n (λ b l r. h b (omega arith) (omega arith)) in
    ground (arith, rest, h i (omega arith) (omega arith))

get_or-bump :
    (m : GoMap Text ℤ) (k j : Text) (d : ℤ)
    → get_or (bump m k d) j (pos 0)
      ≡ ite (Text-discrete k j) (add64 (get_or m k (pos 0)) d) (get_or m j (pos 0))
unfolding bump
get_or-bump m k j d = ground (arith, get-put m k j (add64 (get_or m k (pos 0)) d))

sum_over-bump :
    (days : ℕ → Text) (m : GoMap Text ℤ) (k : Text) (d : ℤ) (i n : ℕ) (total : ℤ)
    → Apart days i n
    → sum_over days (bump m k d) i n total ≡ (
        if is_among days i n k
        then add64 (sum_over days m i n total) d
        else sum_over days m i n total)
sum_over-bump days m k d i zero total apart = refl
sum_over-bump days m k d i (suc n) total apart =
    let g = get_or m (days i) (pos 0) in
    let rest = λ (t : ℤ).
      sum_over-bump days m k d (i + 1) n t (λ a b l r s. apart a b (omega arith) r (omega arith)) in
    elim (Text-discrete (days i) k) [
      | yes e ↦
          let absent =
            not_among days k (i + 1) n
              (λ b l r f. apart i b (omega arith) (omega arith) (omega arith) (e ∙ f)) in
          ground (
            arith,
            get_or-bump m k (days i) d,
            rest (add64 total (add64 g d)),
            absent,
            add64_assoc total g d,
            sum_over-add64 days m (i + 1) n (add64 total g) d,
          )
      | no ne ↦ ground (arith, get_or-bump m k (days i) d, rest (add64 total g))
    ]

-- Documented behaviour of the calendar in UTC: the days of a week and of a month have different
-- keys; a month has whole days of 86400 seconds, 31 at most; and going back by days the weekdays
-- follow each other, with 0 for Sunday.
pub record IsRegular (dates : Dates) : Type 0 where
  pub keys_differ : (t : Time) (a b : ℕ) → a < b → b ≤ 31 → day_key dates t a ≢ day_key dates t b
  pub month_length : Time → ℕ
  pub short_months : (t : Time) → month_length t ≤ 31
  pub month_end :
      (t : Time)
      → dates.next_month (dates.first_of_month t)
        ≡ dates.first_of_month t + month_length t * 86400000000000
  pub weekday_small : (t : Time) → dates.weekday t < 7
  pub weekday_before :
      (t : Time) (n : ℕ)
      → n < 7
      → dates.weekday (dates.midnight t n) ≡ (dates.weekday t + 7 - n) % 7

module _ (dates : Dates) where
  abbrev pub on_day : (Text → Bool) → Event → Bool
  on_day p e = p (dates.calendar.format_day e.time)

  on_event_tables :
      (cm : ComprehensiveMetrics) (now : Time) (e : Event)
      → ((on_event dates.calendar cm now e).points_awarded_by_day ≡ (elim (points_of e) [
        | none ↦ cm.points_awarded_by_day
        | some d ↦ bump cm.points_awarded_by_day (dates.calendar.format_day e.time) d
      ]))
        × ((on_event dates.calendar cm now e).badges_awarded_by_day ≡ (elim (badge_of e) [
          | none ↦ cm.badges_awarded_by_day
          | some d ↦ bump cm.badges_awarded_by_day (dates.calendar.format_day e.time) d
        ]))
  unfolding on_event count_event track_user_engagement EventType-discrete
  on_event_tables cm now e = ground arith

  -- The sum over some days, after events.
  pub observe_sum :
      (days : ℕ → Text) (n : ℕ) (cm : ComprehensiveMetrics) (es : List (Time × Event))
      → Apart days 0 n
      → (sum_over days (observe dates.calendar cm es).points_awarded_by_day 0 n (pos 0)
          ≡ count_when points_of
              (on_day (is_among days 0 n))
              (sum_over days cm.points_awarded_by_day 0 n (pos 0))
              es)
        × (sum_over days (observe dates.calendar cm es).badges_awarded_by_day 0 n (pos 0)
            ≡ count_when badge_of
                (on_day (is_among days 0 n))
                (sum_over days cm.badges_awarded_by_day 0 n (pos 0))
                es)
  unfolding observe
  observe_sum days n cm [] apart = (refl, refl)
  observe_sum days n cm ((now, e) ∷ es) apart =
      let (points, badges) = on_event_tables cm now e in
      let day = dates.calendar.format_day e.time in
      let (ps, bs) = observe_sum days n (on_event dates.calendar cm now e) es apart in
      (
        ps
            ∙ ap (λ t. count_when points_of (on_day (is_among days 0 n)) t es)
                (ap (λ m. sum_over days m 0 n (pos 0)) points
                  ∙ bumped (points_of e) cm.points_awarded_by_day day),
        bs
            ∙ ap (λ t. count_when badge_of (on_day (is_among days 0 n)) t es)
                (ap (λ m. sum_over days m 0 n (pos 0)) badges
                  ∙ bumped (badge_of e) cm.badges_awarded_by_day day),
      )
    where
      bumped :
          (w : Option ℤ) (m : GoMap Text ℤ) (day : Text)
          → sum_over days (elim w [ none ↦ m | some d ↦ bump m day d ]) 0 n (pos 0) ≡ (
              if is_among days 0 n day
              then counted w (sum_over days m 0 n (pos 0))
              else sum_over days m 0 n (pos 0))
      bumped none m day = ground arith
      bumped (some d) m day = sum_over-bump days m day d 0 n (pos 0) apart

  abbrev pub is_key : Text → Text → Bool
  is_key k j = ite (Text-discrete j k) true false

  pub observe_day :
      (k : Text) (cm : ComprehensiveMetrics) (es : List (Time × Event))
      → (get_points_awarded_by_day (observe dates.calendar cm es) k
          ≡ count_when points_of (on_day (is_key k)) (get_points_awarded_by_day cm k) es)
        × (get_badges_awarded_by_day (observe dates.calendar cm es) k
            ≡ count_when badge_of (on_day (is_key k)) (get_badges_awarded_by_day cm k) es)
  unfolding observe get_points_awarded_by_day get_badges_awarded_by_day
  observe_day k cm [] = (refl, refl)
  observe_day k cm ((now, e) ∷ es) =
      let (points, badges) = on_event_tables cm now e in
      let day = dates.calendar.format_day e.time in
      let (ps, bs) = observe_day k (on_event dates.calendar cm now e) es in
      (
        ps
            ∙ ap (λ t. count_when points_of (on_day (is_key k)) t es)
                (ap (λ m. get_or m k (pos 0)) points
                  ∙ bumped (points_of e) cm.points_awarded_by_day day),
        bs
            ∙ ap (λ t. count_when badge_of (on_day (is_key k)) t es)
                (ap (λ m. get_or m k (pos 0)) badges
                  ∙ bumped (badge_of e) cm.badges_awarded_by_day day),
      )
    where
      bumped :
          (w : Option ℤ) (m : GoMap Text ℤ) (day : Text)
          → get_or (elim w [ none ↦ m | some d ↦ bump m day d ]) k (pos 0)
            ≡ (if is_key k day then counted w (get_or m k (pos 0)) else get_or m k (pos 0))
      bumped none m day = ground arith
      bumped (some d) m day = ground (arith, get_or-bump m day k d)
