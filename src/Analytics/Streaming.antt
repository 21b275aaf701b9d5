-- ===== src/Analytics/Streaming.antt =====
-- analytics/streaming.go. The subscribers of a publisher are pointers: they live in a heap, whose
-- addresses are numbers. Where `select` may take one of two ready cases, `pick` says which. A
-- subscriber of another package is not modelled, nor is the encoding as JSON.
pub mod Delivery
pub mod Dashboards
use gamifykit.Prelude.{
  ℕ, zero, suc, ◌+◌, ◌≡◌, Bool, true, false, ◌&&◌, ltb, ◌==◌, if◌then◌else◌, List, [], ◌∷◌, ◌++◌,
  map, Option, none, some, length,
}
use gamifykit.Prelude.Int.{ℤ, pos, negsuc}
use gamifykit.Prelude.GoMap.{GoMap, get, put, delete}
use gamifykit.Prelude.Text.{Text, text, text_key}
use gamifykit.Core.{UserId, Metric, Badge, Time}
use gamifykit.Core.Events.{
  Event, EventType, AnyValue, a_string, not_a_string, points_added, badge_awarded,
  achievement_unlocked, level_up, other_type,
}
use gamifykit.Analytics.Metrics.{Calendar, ComprehensiveMetrics, on_event}
use gamifykit.Analytics.Readings.{get_realtime_stats}
use gamifykit.Analytics.Ranking.{TopMetrics, get_top_metrics}

pub record StreamEvent : Type 0 where
  pub kind : Text
  pub user_id : UserId
  pub metric : Metric
  pub badge : Badge
  pub points : ℤ
  pub level : ℤ
  pub timestamp : Time
  pub metadata : GoMap Text AnyValue

-- `string(e.Type)`
abbrev pub type_text : EventType → Text
type_text points_added = text "points_added"
type_text badge_awarded = text "badge_awarded"
type_text achievement_unlocked = text "achievement_unlocked"
type_text level_up = text "level_up"
type_text (other_type t) = t

abbrev achievement_of : Event → GoMap Text AnyValue
achievement_of e = elim (get e.metadata (text "achievement")) [
  | none ↦ []
  | some value ↦ elim value [
    | not_a_string ↦ []
    | a_string name ↦ (text "achievement", a_string name) ∷ []
  ]
]

unfoldable pub convert_to_stream_event : Event → StreamEvent
convert_to_stream_event e =
    let event : StreamEvent = record {
      kind = type_text e.typ;
      user_id = e.user_id;
      metric = [];
      badge = [];
      points = pos 0;
      level = pos 0;
      timestamp = e.time;
      metadata = [];
    } in
    elim (e.typ) [
      | points_added ↦ record event {
        kind = text "points_awarded";
        points = e.delta;
        metric = e.metric;
      }
      | level_up ↦ record event { kind = text "level_reached"; level = e.level; metric = e.metric }
      | badge_awarded ↦ record event { kind = text "badge_awarded"; badge = e.badge }
      | achievement_unlocked ↦ record event {
        kind = text "achievement_unlocked";
        metadata = achievement_of e;
      }
      | other_type _ ↦ event
    ]

-- `closeChan` is closed where `is_closed` is true.
pub record WebSocketSubscriber : Type 0 where
  pub id : Text
  pub buffer_size : ℕ
  pub send_chan : List StreamEvent
  pub is_closed : Bool

abbrev pub new_web_socket_subscriber : Text → ℕ → WebSocketSubscriber
new_web_socket_subscriber id buffer_size = record {
  id = id;
  buffer_size = buffer_size;
  send_chan = [];
  is_closed = false;
}

-- Where there is room and the subscriber is closing, either case may be taken.
unfoldable pub socket_on_stream_event :
    Bool → StreamEvent → WebSocketSubscriber → WebSocketSubscriber
socket_on_stream_event pick event ws =
    if ltb (length ws.send_chan) ws.buffer_size
    then (if ws.is_closed && pick then ws else record ws { send_chan = ws.send_chan ++ event ∷ [] })
    else ws

-- What a `ReadEvent` returns.
pub data Reading : Type 0 where
  got_event : StreamEvent → Reading
  got_eof : Reading
  got_cancelled : Reading

-- The ways in which `ReadEvent` may return: with the oldest event, as closed, or as cancelled.
pub data Reads : Bool → WebSocketSubscriber → Reading → WebSocketSubscriber → Type 0 where
  reads_event :
      {cancelled : Bool} {ws : WebSocketSubscriber} {event : StreamEvent} {rest : List StreamEvent}
      → ws.send_chan ≡ event ∷ rest
      → Reads cancelled ws (got_event event) (record ws { send_chan = rest })
  reads_eof :
      {cancelled : Bool} {ws : WebSocketSubscriber}
      → ws.is_closed ≡ true
      → Reads cancelled ws got_eof ws
  reads_cancelled : {ws : WebSocketSubscriber} → Reads true ws got_cancelled ws

abbrev pub close_socket : WebSocketSubscriber → WebSocketSubscriber
close_socket ws = record ws { is_closed = true }

pub record InMemorySubscriber : Type 0 where
  pub id : Text
  pub events : List StreamEvent

abbrev pub new_in_memory_subscriber : Text → InMemorySubscriber
new_in_memory_subscriber id = record { id = id; events = [] }

abbrev pub memory_on_stream_event : StreamEvent → InMemorySubscriber → InMemorySubscriber
memory_on_stream_event event ims = record ims { events = ims.events ++ event ∷ [] }

abbrev pub get_events : InMemorySubscriber → List StreamEvent
get_events ims = ims.events

abbrev pub clear_events : InMemorySubscriber → InMemorySubscriber
clear_events ims = record ims { events = [] }

-- Its publisher and its metrics are those of the service that holds it.
pub record DashboardManager : Type 0 where
  pub recent_events : List StreamEvent
  pub max_events : ℕ

abbrev pub tail_of : List StreamEvent → List StreamEvent
tail_of [] = []
tail_of (x ∷ xs) = xs

unfoldable pub dashboard_on_stream_event : StreamEvent → DashboardManager → DashboardManager
dashboard_on_stream_event event dm =
    let events = dm.recent_events ++ event ∷ [] in
    record dm {
      recent_events = if ltb dm.max_events (length events) then tail_of events else events;
    }

pub data StreamSubscriber : Type 0 where
  web_socket : WebSocketSubscriber → StreamSubscriber
  in_memory : InMemorySubscriber → StreamSubscriber
  dashboard : DashboardManager → StreamSubscriber

unfoldable pub on_stream_event : Bool → StreamEvent → StreamSubscriber → StreamSubscriber
on_stream_event pick event (web_socket ws) = web_socket (socket_on_stream_event pick event ws)
on_stream_event pick event (in_memory ims) = in_memory (memory_on_stream_event event ims)
on_stream_event pick event (dashboard dm) = dashboard (dashboard_on_stream_event event dm)

unfoldable pub close : StreamSubscriber → StreamSubscriber
close (web_socket ws) = web_socket (close_socket ws)
close (in_memory ims) = in_memory ims
close (dashboard dm) = dashboard dm

abbrev pub Heap : Type 0
Heap = ℕ → StreamSubscriber

pub record StreamPublisher : Type 0 where
  pub subscribers : GoMap Text ℕ
  pub heap : Heap

abbrev pub set_at : Heap → ℕ → StreamSubscriber → Heap
set_at h p sub a = if a == p then sub else h a

unfoldable pub new_stream_publisher : Heap → StreamPublisher
new_stream_publisher heap = record { subscribers = []; heap = heap }

-- A subscriber that was made at the address `p`.
unfoldable pub subscribe : StreamPublisher → Text → ℕ → StreamPublisher
subscribe sp id p = record sp { subscribers = put sp.subscribers id p }

unfoldable pub unsubscribe : StreamPublisher → Text → StreamPublisher
unsubscribe sp id = elim (get sp.subscribers id) [
  | none ↦ sp
  | some p ↦ record {
    subscribers = delete sp.subscribers id;
    heap = set_at sp.heap p (close (sp.heap p));
  }
]

-- The copy of the subscribers that `PublishEvent` makes under the lock.
unfoldable pub receivers : GoMap Text ℕ → List ℕ
receivers [] = []
receivers ((id, p) ∷ subs) = p ∷ receivers subs

unfoldable pub deliver : (ℕ → Bool) → StreamEvent → List ℕ → Heap → Heap
deliver pick event [] heap = heap
deliver pick event (p ∷ ps) heap =
    deliver pick event ps (set_at heap p (on_stream_event (pick p) event (heap p)))

unfoldable pub publish_event : (ℕ → Bool) → StreamPublisher → StreamEvent → StreamPublisher
publish_event pick sp event = record sp {
  heap = deliver pick event (receivers sp.subscribers) sp.heap;
}

-- `OnEvent`, on the metrics that the publisher shares with its service.
unfoldable pub publisher_on_event :
    Calendar
    → (ℕ → Bool)
    → ComprehensiveMetrics × StreamPublisher
    → Time
    → Event
    → ComprehensiveMetrics × StreamPublisher
publisher_on_event calendar pick (cm, sp) now e =
    (on_event calendar cm now e, publish_event pick sp (convert_to_stream_event e))

pub record RealtimeStats : Type 0 where
  pub points_awarded_24h : ℤ
  pub badges_awarded_24h : ℤ
  pub levels_reached_24h : ℤ
  pub active_subscribers : ℕ
  pub timestamp : Time

unfoldable pub realtime_stats : ComprehensiveMetrics → StreamPublisher → Time → RealtimeStats
realtime_stats cm sp now =
    let (points, badges, levels) = get_realtime_stats cm in
    record {
      points_awarded_24h = points;
      badges_awarded_24h = badges;
      levels_reached_24h = levels;
      active_subscribers = length (receivers sp.subscribers);
      timestamp = now;
    }

-- `make` panics on a negative capacity: `none`. The manager is made at the address `p`.
unfoldable pub new_dashboard_manager : StreamPublisher → ℕ → ℤ → Option StreamPublisher
new_dashboard_manager sp p (negsuc _) = none
new_dashboard_manager sp p (pos max_events) = some (
    subscribe
      (record sp {
        heap =
            set_at sp.heap p (dashboard (record { recent_events = []; max_events = max_events }));
      })
      (text "dashboard") p)

pub record DashboardData : Type 0 where
  pub realtime : RealtimeStats
  pub top_metrics : Option TopMetrics
  pub recent_events : List StreamEvent
  pub timestamp : Time

unfoldable pub get_dashboard_data :
    ComprehensiveMetrics → StreamPublisher → DashboardManager → Time → DashboardData
get_dashboard_data cm sp dm now = record {
  realtime = realtime_stats cm sp now;
  top_metrics = get_top_metrics cm (pos 10);
  recent_events = dm.recent_events;
  timestamp = now;
}
