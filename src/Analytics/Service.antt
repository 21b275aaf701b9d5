-- ===== src/Analytics/Service.antt =====
-- analytics/integration.go: the service that puts metrics, aggregation, streaming, the dashboard and
-- the exporters together. The metrics are one object, which all parts share; the dashboard is the
-- subscriber at the address `board`. The tickers are not modelled, only what they call.
pub mod Subscriptions
pub mod Board
use gamifykit.Prelude.{ℕ, ◌+◌, ◌*◌, ◌^◌, ◌≡◌, Bool, List, [], ◌∷◌, ◌++◌, map, Option, none, some}
use gamifykit.Prelude.Int.{ℤ, pos, ℤ-discrete}
use gamifykit.Prelude.Text.{Text, text}
use gamifykit.Core.{Time}
use gamifykit.Core.Events.{Event}
use gamifykit.Analytics.Metrics.{ComprehensiveMetrics, new_comprehensive_metrics}
use gamifykit.Analytics.Aggregation.{
  Dates, AggregationEngine, period_daily, new_aggregation_engine, aggregate_now,
  get_all_aggregated_data,
}
use gamifykit.Analytics.Streaming.{
  Heap, StreamPublisher, StreamSubscriber, web_socket, in_memory, dashboard, DashboardData,
  RealtimeStats, set_at, new_stream_publisher, new_dashboard_manager, publisher_on_event,
  realtime_stats, get_dashboard_data, subscribe, unsubscribe,
}
use gamifykit.Analytics.Export.{
  Network, Exporter, http, segment, console, new_http_exporter, export_data,
}

pub record AnalyticsService : Type 0 where
  pub metrics : ComprehensiveMetrics
  pub aggregator : AggregationEngine
  pub publisher : StreamPublisher
  pub board : ℕ
  pub exporters : List Exporter

-- One hour, in nanoseconds
abbrev pub hour : ℕ
hour = 3600 * 10 ^ 9

-- A service with its dashboard at the address 0; `heap` has the subscribers to come.
unfoldable pub service_with : Heap → Time → Time → ℤ → List Exporter → Option AnalyticsService
service_with heap now interval max_events exporters =
    elim (new_dashboard_manager (new_stream_publisher heap) 0 max_events) [
      | none ↦ none
      | some sp ↦ some (record {
        metrics = new_comprehensive_metrics now;
        aggregator = new_aggregation_engine interval now;
        publisher = sp;
        board = 0;
        exporters = exporters;
      })
    ]

abbrev pub console_exporter : Text → Exporter
console_exporter prefix = console (record { prefix = prefix })

unfoldable pub new_analytics_service : Heap → Time → Option AnalyticsService
new_analytics_service heap now =
    service_with heap now hour (pos 100) (console_exporter (text "[ANALYTICS]") ∷ [])

unfoldable pub create_analytics_service_for_testing : Heap → Time → Option AnalyticsService
create_analytics_service_for_testing heap now =
    service_with heap now hour (pos 10) (console_exporter (text "[TEST]") ∷ [])

-- The types of exporters that the configuration knows, and any other string.
pub data ExporterType : Type 0 where
  type_http type_segment : ExporterType
  other_exporter : Text → ExporterType

pub record ExporterConfig : Type 0 where
  pub typ : ExporterType
  pub endpoint : Text
  pub api_key : Text
  pub batch_size : ℤ

pub record AnalyticsConfig : Type 0 where
  pub aggregation_interval : Time
  pub max_recent_events : ℤ
  pub export_interval : Time
  pub enable_streaming : Bool
  pub exporters : List ExporterConfig

-- The exporter of one entry. The default of the batch size is set behind the making of the
-- exporter, so that it changes nothing.
unfoldable pub configured : ExporterConfig → Option (List Exporter)
configured c = elim (c.typ) [
  | type_http ↦ elim (new_http_exporter c.endpoint c.api_key c.batch_size) [
    | none ↦ none
    | some e ↦ some (http e ∷ [])
  ]
  | type_segment ↦ elim (c.api_key) [
    | [] ↦ some []
    | k ∷ ks ↦ some (segment (record { write_key = k ∷ ks }) ∷ [])
  ]
  | other_exporter _ ↦ some []
]

unfoldable pub configured_all : List ExporterConfig → Option (List Exporter)
configured_all [] = some []
configured_all (c ∷ cs) = elim (configured c) [
  | none ↦ none
  | some es ↦ elim (configured_all cs) [ none ↦ none | some rest ↦ some (es ++ rest) ]
]

unfoldable pub new_analytics_service_with_config :
    Heap → Time → AnalyticsConfig → Option AnalyticsService
new_analytics_service_with_config heap now config = elim (configured_all config.exporters) [
  | none ↦ none
  | some es ↦
      service_with heap now config.aggregation_interval config.max_recent_events
        (console_exporter (text "[ANALYTICS]") ∷ es)
]

unfoldable pub service_stats : AnalyticsService → Time → RealtimeStats
service_stats s now = realtime_stats s.metrics s.publisher now

-- `none` if there is no dashboard at the address of the dashboard.
unfoldable pub service_dashboard : AnalyticsService → Time → Option DashboardData
service_dashboard s now = elim (s.publisher.heap s.board) [
  | web_socket _ ↦ none
  | in_memory _ ↦ none
  | dashboard dm ↦ some (get_dashboard_data s.metrics s.publisher dm now)
]

-- What the ticker of `startPeriodicExport` calls.
unfoldable pub export_daily :
    (net : Network) → AnalyticsService → net.World → Option Text × AnalyticsService × net.World
export_daily net s w =
    let (failed, es, w') =
      export_data net s.exporters (get_all_aggregated_data s.aggregator period_daily) w in
    (failed, record s { exporters = es }, w')

-- The calls that change a service: an event at the hook, a subscriber that was made at an address,
-- the end of a subscription, and an aggregation.
pub data ServiceCall : Type 0 where
  call_event : (ℕ → Bool) → Time → Event → ServiceCall
  call_subscribe : Text → ℕ → StreamSubscriber → ServiceCall
  call_unsubscribe : Text → ServiceCall
  call_aggregate : Time → ServiceCall

module _ (dates : Dates) where
  unfoldable pub hook_on_event : AnalyticsService → (ℕ → Bool) → Time → Event → AnalyticsService
  hook_on_event s pick now e =
      let (cm, sp) = publisher_on_event dates.calendar pick (s.metrics, s.publisher) now e in
      record s { metrics = cm; publisher = sp }

  unfoldable pub subscribe_to_realtime :
      AnalyticsService → Text → ℕ → StreamSubscriber → AnalyticsService
  subscribe_to_realtime s id p sub = record s {
    publisher = subscribe (record s.publisher { heap = set_at s.publisher.heap p sub }) id p;
  }

  unfoldable pub unsubscribe_from_realtime : AnalyticsService → Text → AnalyticsService
  unsubscribe_from_realtime s id = record s { publisher = unsubscribe s.publisher id }

  unfoldable pub force_aggregation : AnalyticsService → Time → AnalyticsService
  force_aggregation s now = record s { aggregator = aggregate_now dates s.aggregator s.metrics now }

  unfoldable pub serve : AnalyticsService → List ServiceCall → AnalyticsService
  serve s [] = s
  serve s (call_event pick now e ∷ calls) = serve (hook_on_event s pick now e) calls
  serve s (call_subscribe id p sub ∷ calls) = serve (subscribe_to_realtime s id p sub) calls
  serve s (call_unsubscribe id ∷ calls) = serve (unsubscribe_from_realtime s id) calls
  serve s (call_aggregate now ∷ calls) = serve (force_aggregation s now) calls
