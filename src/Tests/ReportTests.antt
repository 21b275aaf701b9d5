-- ===== src/Tests/ReportTests.antt =====
-- The theorems on the aggregates, the streams, the exporters and the service of analytics/ at
-- concrete inputs.
use gamifykit.Prelude.{
  ℕ, ◌<◌, ◌≤◌, ◌+◌, ◌-◌, ◌*◌, ◌/◌, ◌%◌, ◌≡◌, ◌⊎◌, inl, inr, refl, ap, subst, ◌∙◌, arith, Bool, true,
  false, ltb, if◌then◌else◌, List, [], ◌∷◌, ◌++◌, some, Result, ok, err,
}
use gamifykit.Prelude.Int.{pos}
use gamifykit.Prelude.Text.{Text, text}
use gamifykit.Core.{Time, metric_xp}
use gamifykit.Core.Events.{Event, new_points_added, new_badge_awarded}
use gamifykit.Analytics.Metrics.{new_comprehensive_metrics, get_week_key, get_month_key}
use gamifykit.Analytics.Readings.{
  get_daily_active_users, get_weekly_active_users, get_monthly_active_users,
}
use gamifykit.Analytics.Ranking.{get_top_metrics}
use gamifykit.Analytics.Ranking.Totals.{observe}
use gamifykit.Analytics.Aggregation.{
  Dates, AggregationEngine, AggregatedData, day_length, day_key, period_daily, period_weekly,
  period_monthly, new_aggregation_engine, aggregate_now, get_aggregated_data, blank_data,
}
use gamifykit.Analytics.Aggregation.Counts.{IsRegular, is_key, is_among}
use gamifykit.Analytics.Aggregation.Reports.{Counts, aggregate_now-Counts}
use gamifykit.Analytics.Streaming.{
  StreamPublisher, Heap, DashboardData, in_memory, web_socket, new_in_memory_subscriber,
  new_web_socket_subscriber,
}
use gamifykit.Analytics.Streaming.Dashboards.{last_events}
use gamifykit.Analytics.Export.{Network, HttpExporter}
use gamifykit.Analytics.Export.Retention.{Delivers, IsConclusive, Safe, export_run, export_run-Safe}
use gamifykit.Analytics.Service.{
  AnalyticsService, ServiceCall, call_event, call_subscribe, call_unsubscribe, call_aggregate,
  service_with, service_dashboard, serve,
}
use gamifykit.Analytics.Service.Board.{Spares, events_of, streamed, serve_board}

-- Days, weeks and months of 30 days, counted from the start of time; no day is before it, so that
-- the first days look a week ahead.
abbrev counting_dates : Dates
counting_dates = record {
  calendar = record {
    format_day = λ t. t / day_length ∷ [];
    format_month = λ t. t / (30 * day_length) ∷ [];
    iso_week = λ t. (2000, t / (7 * day_length));
  };
  weekday = λ t. (t / day_length + 1) % 7;
  midnight = λ t k.
      if ltb (t / day_length) k
      then (t / day_length + 7 - k) * day_length
      else (t / day_length - k) * day_length;
  first_of_month = λ t. t / (30 * day_length) * (30 * day_length);
  next_month = λ t. t + 30 * day_length;
  add_days = λ t i. t + i * day_length;
}

head_of : {m n : ℕ} → ◌≡◌ {A = Text} (m ∷ []) (n ∷ []) → m ≡ n
head_of {m = m} e = ap (λ t. elim t [ [] ↦ m | c ∷ _ ↦ c ]) e

counting_dates-IsRegular : IsRegular counting_dates
counting_dates-IsRegular = record {
  keys_differ = λ t a b l u e. absurd (omega (arith, head_of e));
  month_length = λ t. 30;
  short_months = λ t. omega arith;
  month_end = λ t. omega arith;
  weekday_small = λ t. omega arith;
  weekday_before = λ t n h. ground (arith, h);
}

abbrev gain : Event
gain = new_points_added (3 * day_length) (text "alice") metric_xp (pos 40) (pos 40)

abbrev prize : Event
prize = new_badge_awarded (4 * day_length + 5) (text "bob") (text "streak_7")

abbrev busy_days : List (Time × Event)
busy_days = (3 * day_length, gain) ∷ (4 * day_length + 5, prize) ∷ (4 * day_length + 6, gain) ∷ []

abbrev engine : AggregationEngine
engine = new_aggregation_engine day_length 5

aggregate_now-Counts_example :
    let cm = observe counting_dates.calendar (new_comprehensive_metrics 5) busy_days in
    let now = 4 * day_length + 9 in
    let after = aggregate_now counting_dates engine cm now in
    let today = counting_dates.calendar.format_day now in
    let week_key = get_week_key counting_dates.calendar now in
    let month_key = get_month_key counting_dates.calendar now in
    let month = counting_dates.first_of_month now in
    Counts counting_dates counting_dates-IsRegular 5 busy_days
      (is_key counting_dates today)
      (get_daily_active_users cm today)
      (get_aggregated_data after period_daily today)
    × ((back : ℕ) × (back < 7)
        × (counting_dates.weekday (counting_dates.midnight now back) ≡ 1)
        × Counts counting_dates counting_dates-IsRegular 5 busy_days
            (is_among (day_key counting_dates (counting_dates.midnight now back)) 0 7)
            (get_weekly_active_users cm week_key)
            (get_aggregated_data after period_weekly week_key))
    × Counts counting_dates counting_dates-IsRegular 5 busy_days
        (is_among (day_key counting_dates month) 0 (counting_dates-IsRegular.month_length now))
        (get_monthly_active_users cm month_key)
        (get_aggregated_data after period_monthly month_key)
aggregate_now-Counts_example =
    aggregate_now-Counts counting_dates counting_dates-IsRegular 5 busy_days engine
      (4 * day_length + 9)

abbrev listeners : Heap
listeners p = in_memory (new_in_memory_subscriber (text "log"))

abbrev publisher : StreamPublisher
publisher = record {
  subscribers = (text "a", 1) ∷ (text "b", 2) ∷ (text "c", 1) ∷ [];
  heap = listeners;
}

abbrev visits : List ServiceCall
visits =
    call_event (λ p. true) 7 gain
    ∷ call_subscribe (text "socket") 3 (web_socket (new_web_socket_subscriber (text "socket") 2))
    ∷ call_event (λ p. false) 8 prize
    ∷ call_unsubscribe (text "socket")
    ∷ call_aggregate 9
    ∷ call_event (λ p. true) 10 gain
    ∷ []

socket_spared : Spares visits
socket_spared =
    (λ e. absurd (ground (arith, e)), λ e. omega arith, (λ e. absurd (ground (arith, e)), tt))

serve_board_example :
    (s : AnalyticsService) × (service_with listeners 5 day_length (pos 2) [] ≡ some s)
    × ((shown : DashboardData) × (service_dashboard (serve counting_dates s visits) 11 ≡ some shown)
        × (shown.recent_events ≡ last_events 2 (streamed (events_of visits)))
        × (shown.top_metrics
            ≡ get_top_metrics
                (observe counting_dates.calendar (new_comprehensive_metrics 5) (events_of visits))
                (pos 10)))
serve_board_example = serve_board counting_dates 2 listeners 5 day_length 11 [] visits socket_spared

-- A server that stores what it is sent, where the next requests time out as `timeouts` says.
record Server : Type 0 where
  received : List AggregatedData
  timeouts : List Bool

abbrev answer : Server → List AggregatedData → List Bool → Result Text (ℕ × Text) × Server
answer w batch [] = (ok (200, []), record w { received = w.received ++ batch })
answer w batch (true ∷ rest) = (err (text "timeout"), record w { timeouts = rest })
answer w batch (false ∷ rest) =
    (ok (200, []), record { received = w.received ++ batch; timeouts = rest })

abbrev server_network : Network
server_network = record {
  Payload = List AggregatedData;
  Request = List AggregatedData;
  World = Server;
  marshal_batch = λ batch. ok batch;
  marshal_event = λ event. ok [];
  marshal_indent = λ agg. ok (agg ∷ []);
  new_request = λ method url p. ok p;
  set_header = λ r k v. r;
  set_basic_auth = λ r user password. r;
  send = λ w r. answer w r w.timeouts;
}

answer_stored :
    (w : Server) (batch : List AggregatedData) (timeouts : List Bool) (status : ℕ) (body : Text)
    → (answer w batch timeouts).0 ≡ ok (status, body)
    → (answer w batch timeouts).1.received ≡ w.received ++ batch
answer_stored w batch [] status body h = refl
answer_stored w batch (true ∷ rest) status body h = absurd (ground arith)
answer_stored w batch (false ∷ rest) status body h = refl

answer_status :
    (w : Server) (batch : List AggregatedData) (timeouts : List Bool) (status : ℕ) (body : Text)
    → (answer w batch timeouts).0 ≡ ok (status, body)
    → ((200 ≤ status) × (status < 300)) ⊎ (400 ≤ status)
answer_status w batch [] status body h = inl (ground (arith, h))
answer_status w batch (true ∷ rest) status body h = absurd (ground arith)
answer_status w batch (false ∷ rest) status body h = inl (ground (arith, h))

answer_unsure :
    (w : Server) (batch : List AggregatedData) (timeouts : List Bool)
    → ((answer w batch timeouts).1.received ≡ w.received)
      ⊎ ((answer w batch timeouts).1.received ≡ w.received ++ batch)
answer_unsure w batch [] = inr refl
answer_unsure w batch (true ∷ rest) = inl refl
answer_unsure w batch (false ∷ rest) = inr refl

server-Delivers : Delivers server_network
server-Delivers = record {
  stored = λ w. w.received;
  IsRedirected = λ w r. ⊥;
  Carries = λ r batch. r ≡ batch;
  new_request_carries = λ method url batch p r h k. ground (arith, h, k);
  set_header_carries = λ r k v batch c. c;
  send_stored = λ w r batch status body c d h l k.
      answer_stored w r w.timeouts status body h ∙ ap (λ b. w.received ++ b) c;
  send_unsure = λ w r batch c.
      subst
        (λ b.
          ((answer w r w.timeouts).1.received ≡ w.received)
          ⊎ ((answer w r w.timeouts).1.received ≡ w.received ++ b))
        c (answer_unsure w r w.timeouts);
}

server-IsConclusive : IsConclusive server_network server-Delivers
unfolding server-Delivers
server-IsConclusive = record {
  direct = λ w r h. h;
  answered = λ w r status body h. answer_status w r w.timeouts status body h;
}

abbrev day_report : Text → AggregatedData
day_report key = blank_data period_daily key 0 day_length 5

abbrev exporter : HttpExporter
exporter = record {
  endpoint = text "https://a";
  api_key = text "k";
  buffer = [];
  batch_size = pos 2;
}

abbrev flaky : Server
flaky = record { received = []; timeouts = true ∷ [] }

abbrev reports : List AggregatedData
reports = day_report (text "1") ∷ day_report (text "2") ∷ day_report (text "3") ∷ []

export_run-Safe_example :
    Safe server_network server-Delivers server-IsConclusive
      (day_report (text "2"))
      (export_run server_network server-Delivers server-IsConclusive reports exporter flaky).0
      (export_run server_network server-Delivers server-IsConclusive reports exporter flaky).1
export_run-Safe_example =
    export_run-Safe server_network server-Delivers server-IsConclusive reports exporter flaky
      (day_report (text "2")) (inr (inl refl))
