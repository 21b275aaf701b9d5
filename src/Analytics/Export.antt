-- ===== src/Analytics/Export.antt =====
-- analytics/export.go. HTTP and JSON are parameters: `World` is what the requests change, and a
-- response is its status and its body. What the console exporter prints is not modelled.
pub mod Retention
use gamifykit.Prelude.{
  ℕ, zero, suc, ◌≡◌, Bool, true, false, ltb, leb, if◌then◌else◌, List, [], ◌∷◌, ◌++◌, map, Option,
  none, some, Result, ok, err, length,
}
use gamifykit.Prelude.Int.{ℤ, pos, negsuc, leb_ℤ, ltb_ℤ}
use gamifykit.Prelude.GoMap.{GoMap}
use gamifykit.Prelude.Text.{Text, text}
use gamifykit.Core.{Metric, Badge, Time, UserId}
use gamifykit.Config.Checks.{decimal_on}
use gamifykit.Analytics.Aggregation.{AggregatedData, AggregationPeriod}

-- The values of the properties of an event.
pub data Property : Type 0 where
  a_period : AggregationPeriod → Property
  a_text : Text → Property
  a_count : ℤ → Property
  by_metric : GoMap Metric ℤ → Property
  by_badge : GoMap Badge ℤ → Property

pub record SegmentEvent : Type 0 where
  pub user_id : UserId
  pub event : Text
  pub timestamp : Time
  pub properties : GoMap Text Property

-- json.Marshal, http.NewRequestWithContext, the headers, and Client.Do.
pub record Network : Type 1 where
  pub Payload : Type 0
  pub Request : Type 0
  pub World : Type 0
  pub marshal_batch : List AggregatedData → Result Text Payload
  pub marshal_event : SegmentEvent → Result Text Payload
  pub marshal_indent : AggregatedData → Result Text Payload
  pub new_request : Text → Text → Payload → Result Text Request
  pub set_header : Request → Text → Text → Request
  pub set_basic_auth : Request → Text → Text → Request
  pub send : World → Request → Result Text (ℕ × Text) × World

pub record HttpExporter : Type 0 where
  pub endpoint : Text
  pub api_key : Text
  pub buffer : List AggregatedData
  pub batch_size : ℤ

-- `make` panics on a negative capacity: `none`.
unfoldable pub new_http_exporter : Text → Text → ℤ → Option HttpExporter
new_http_exporter endpoint api_key (negsuc _) = none
new_http_exporter endpoint api_key (pos n) =
    some (record { endpoint = endpoint; api_key = api_key; buffer = []; batch_size = pos n })

pub record SegmentExporter : Type 0 where
  pub write_key : Text

pub record ConsoleExporter : Type 0 where
  pub prefix : Text

pub data Exporter : Type 0 where
  http : HttpExporter → Exporter
  segment : SegmentExporter → Exporter
  console : ConsoleExporter → Exporter

-- "%s with status %d: %s"
abbrev pub status_error : Text → ℕ → Text → Text
status_error what status body = what ++ decimal_on status status ++ text ": " ++ body

-- "%T"
abbrev pub type_name : Exporter → Text
type_name (http _) = text "*analytics.HTTPExporter"
type_name (segment _) = text "*analytics.SegmentExporter"
type_name (console _) = text "*analytics.ConsoleExporter"

abbrev pub failed_for : Text → Exporter → Text → Text
failed_for what e m = what ++ type_name e ++ text ": " ++ m

abbrev pub is_positive : ℤ → Bool
is_positive n = ltb_ℤ (pos 0) n

-- The event of one total, if there is anything to tell.
abbrev pub segment_event : AggregatedData → Text → ℤ → GoMap Text Property → List SegmentEvent
segment_event agg name total properties =
    if is_positive total
    then record {
      user_id = text "system";
      event = name;
      timestamp = agg.created_at;
      properties =
          (text "period", a_period agg.period) ∷ (text "period_key", a_text agg.key) ∷ properties;
    }
      ∷ []
    else []

unfoldable pub convert_to_segment_events : AggregatedData → List SegmentEvent
convert_to_segment_events agg =
    segment_event agg (text "gamification_active_users") (pos agg.active_users)
      ((text "active_users", a_count (pos agg.active_users)) ∷ [])
    ++ segment_event agg (text "gamification_points_awarded") agg.points_awarded (
        (text "points_awarded", a_count agg.points_awarded)
        ∷ (text "points_by_metric", by_metric agg.points_by_metric)
        ∷ [])
    ++ segment_event agg (text "gamification_badges_awarded") agg.badges_awarded (
        (text "badges_awarded", a_count agg.badges_awarded)
        ∷ (text "badges_by_type", by_badge agg.badges_by_type)
        ∷ [])

module _ (net : Network) where
  -- A request that is answered, and what a status of 400 or more makes of it.
  unfoldable pub post : net.World → net.Request → Text → Text → Option Text × net.World
  post w req send_text status_text =
      let (answer, w') = net.send w req in
      (
        elim answer [
          | err e ↦ some (send_text ++ e)
          | ok (status, body) ↦
              if leb 400 status then some (status_error status_text status body) else none
        ],
        w',
      )

  unfoldable pub authorize : HttpExporter → net.Request → net.Request
  authorize e req =
      let typed = net.set_header req (text "Content-Type") (text "application/json") in
      elim (e.api_key) [
        | [] ↦ typed
        | c ∷ cs ↦ net.set_header typed (text "Authorization") (text "Bearer " ++ c ∷ cs)
      ]

  -- `Flush` of a buffer that is not empty: the buffer is cleared when the batch went through.
  unfoldable pub send_batch : HttpExporter → net.World → Option Text × HttpExporter × net.World
  send_batch e w = elim (net.marshal_batch e.buffer) [
    | err m ↦ (some (text "failed to marshal analytics data: " ++ m), e, w)
    | ok payload ↦ elim (net.new_request (text "POST") e.endpoint payload) [
      | err m ↦ (some (text "failed to create request: " ++ m), e, w)
      | ok req ↦
          let (failed, w') =
            post w (authorize e req) (text "failed to send analytics data: ")
              (text "analytics export failed with status ") in
          elim failed [ some m ↦ (some m, e, w') | none ↦ (none, record e { buffer = [] }, w') ]
    ]
  ]

  unfoldable pub flush_http : HttpExporter → net.World → Option Text × HttpExporter × net.World
  flush_http e w = elim (e.buffer) [ [] ↦ (none, e, w) | _ ∷ _ ↦ send_batch e w ]

  unfoldable pub export_http :
      HttpExporter → AggregatedData → net.World → Option Text × HttpExporter × net.World
  export_http e agg w =
      let e' = record e { buffer = e.buffer ++ agg ∷ [] } in
      if leb_ℤ e'.batch_size (pos (length e'.buffer)) then flush_http e' w else (none, e', w)

  -- `sendEvent`
  unfoldable pub send_event : SegmentExporter → SegmentEvent → net.World → Option Text × net.World
  send_event e event w = elim (net.marshal_event event) [
    | err m ↦ (some m, w)
    | ok payload ↦
        elim (net.new_request (text "POST") (text "https://api.segment.io/v1/track") payload) [
          | err m ↦ (some m, w)
          | ok req ↦
              post w
                (net.set_basic_auth
                  (net.set_header req (text "Content-Type") (text "application/json")) e.write_key
                  [])
                [] (text "segment API returned status ")
        ]
  ]

  unfoldable pub send_events :
      SegmentExporter → List SegmentEvent → net.World → Option Text × net.World
  send_events e [] w = (none, w)
  send_events e (event ∷ events) w =
      let (failed, w') = send_event e event w in
      elim failed [
        | some m ↦ (some (text "failed to send segment event: " ++ m), w')
        | none ↦ send_events e events w'
      ]

  unfoldable pub export_console : AggregatedData → Option Text
  export_console agg = elim (net.marshal_indent agg) [ err m ↦ some m | ok _ ↦ none ]

  unfoldable pub export : Exporter → AggregatedData → net.World → Option Text × Exporter × net.World
  export (http e) agg w = let (failed, e', w') = export_http e agg w in (failed, http e', w')
  export (segment e) agg w =
      let (failed, w') = send_events e (convert_to_segment_events agg) w in (failed, segment e, w')
  export (console e) agg w = (export_console agg, console e, w)

  unfoldable pub flush : Exporter → net.World → Option Text × Exporter × net.World
  flush (http e) w = let (failed, e', w') = flush_http e w in (failed, http e', w')
  flush (segment e) w = (none, segment e, w)
  flush (console e) w = (none, console e, w)

  -- `Close` flushes.
  unfoldable pub close : Exporter → net.World → Option Text × Exporter × net.World
  close e w = flush e w

  -- `MultiExporter.Export`: an error of one exporter does not stop the others.
  unfoldable pub export_each :
      List Exporter → AggregatedData → net.World → List Exporter × net.World
  export_each [] agg w = ([], w)
  export_each (e ∷ es) agg w =
      let (failed, e', w') = export e agg w in
      let (es', w'') = export_each es agg w' in (e' ∷ es', w'')

  -- The loop of `ExportManager.ExportData`, which stops at the first error.
  unfoldable pub export_one :
      List Exporter → AggregatedData → net.World → Option Text × List Exporter × net.World
  export_one [] agg w = (none, [], w)
  export_one (e ∷ es) agg w =
      let (failed, e', w') = export e agg w in
      elim failed [
        | some m ↦ (some (failed_for (text "export failed for ") e m), e' ∷ es, w')
        | none ↦ let (failed', es', w'') = export_one es agg w' in (failed', e' ∷ es', w'')
      ]

  -- `Flush` of a `MultiExporter`, and with the words that an `ExportManager` puts before an error.
  unfoldable pub flush_all :
      (Exporter → Text → Text) → List Exporter → net.World → Option Text × List Exporter × net.World
  flush_all words [] w = (none, [], w)
  flush_all words (e ∷ es) w =
      let (failed, e', w') = flush e w in
      elim failed [
        | some m ↦ (some (words e m), e' ∷ es, w')
        | none ↦ let (failed', es', w'') = flush_all words es w' in (failed', e' ∷ es', w'')
      ]

  -- `Close` of both: every exporter is closed, and the last error is returned.
  unfoldable pub close_all : List Exporter → net.World → Option Text × List Exporter × net.World
  close_all [] w = (none, [], w)
  close_all (e ∷ es) w =
      let (failed, e', w') = close e w in
      let (later, es', w'') = close_all es w' in
      (elim later [ none ↦ failed | some m ↦ some m ], e' ∷ es', w'')

  -- `ExportManager.ExportData`
  unfoldable pub export_data :
      List Exporter → List AggregatedData → net.World → Option Text × List Exporter × net.World
  export_data es [] w = flush_all (failed_for (text "flush failed for ")) es w
  export_data es (agg ∷ aggs) w =
      let (failed, es', w') = export_one es agg w in
      elim failed [ some m ↦ (some m, es', w') | none ↦ export_data es' aggs w' ]
