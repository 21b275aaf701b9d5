-- ===== src/Analytics/Service/Board.antt =====
-- What the dashboard of the service shows after any calls.
use gamifykit.Prelude.{
  ℕ, ◌-◌, ◌≡◌, ◌≢◌, inl, inr, refl, ap, sym, ◌∙◌, subst, arith, Bool, List, [], ◌∷◌, ◌++◌,
  Option-cases, some,
}
use gamifykit.Prelude.Int.{pos}
use gamifykit.Prelude.GoMap.{get, put}
use gamifykit.Prelude.Text.{Text, text_key}
use gamifykit.Core.{Time}
use gamifykit.Core.Events.{Event}
use gamifykit.Analytics.Metrics.{new_comprehensive_metrics}
use gamifykit.Analytics.Ranking.Totals.{observe}
use gamifykit.Analytics.Aggregation.{Dates}
use gamifykit.Analytics.Ranking.{get_top_metrics}
use gamifykit.Analytics.Export.{Exporter}
use gamifykit.Analytics.Streaming.{
  StreamEvent, Heap, StreamSubscriber, DashboardManager, dashboard, convert_to_stream_event,
  dashboard_on_stream_event, on_stream_event, receivers, subscribe, unsubscribe, publish_event,
  publisher_on_event, new_dashboard_manager, new_stream_publisher, get_dashboard_data,
  DashboardData,
}
use gamifykit.Analytics.Streaming.Delivery.{times, publish_event-received}
use gamifykit.Analytics.Streaming.Dashboards.{
  last_events, drop_zero, dashboard_on_stream_event-last_events,
}
use gamifykit.Analytics.Service.Subscriptions.{
  board_name, Named, put-Named, delete-Named, get-Named,
}
use gamifykit.Analytics.Service.{
  AnalyticsService, ServiceCall, call_event, call_subscribe, call_unsubscribe, call_aggregate,
  service_with, service_dashboard, hook_on_event, subscribe_to_realtime, unsubscribe_from_realtime,
  force_aggregation, serve,
}

-- The calls leave the name and the address of the dashboard alone.
abbrev pub Spares : List ServiceCall → Type 0
Spares [] = Unit
Spares (call_event pick now e ∷ calls) = Spares calls
Spares (call_subscribe id p sub ∷ calls) = (id ≢ board_name) × (p ≢ 0) × Spares calls
Spares (call_unsubscribe id ∷ calls) = (id ≢ board_name) × Spares calls
Spares (call_aggregate now ∷ calls) = Spares calls

-- The events of the calls.
abbrev pub events_of : List ServiceCall → List (Time × Event)
events_of [] = []
events_of (call_event pick now e ∷ calls) = (now, e) ∷ events_of calls
events_of (call_subscribe id p sub ∷ calls) = events_of calls
events_of (call_unsubscribe id ∷ calls) = events_of calls
events_of (call_aggregate now ∷ calls) = events_of calls

abbrev pub streamed : List (Time × Event) → List StreamEvent
streamed [] = []
streamed ((_, e) ∷ es) = convert_to_stream_event e ∷ streamed es

-- The dashboard at address 0 is subscribed once, and shows the last of the events `seen`.
record ShowsLast (max : ℕ) (s : AnalyticsService) (seen : List StreamEvent) : Type 0 where
  at_zero : s.board ≡ 0
  named : Named s.publisher.subscribers
  once : times 0 (receivers s.publisher.subscribers) ≡ 1
  dm : DashboardManager
  there : s.publisher.heap 0 ≡ dashboard dm
  bound : dm.max_events ≡ max
  recent : dm.recent_events ≡ last_events max seen

module _ (dates : Dates) (max : ℕ) where
  event-ShowsLast :
      (s : AnalyticsService) (seen : List StreamEvent) (pick : ℕ → Bool) (now : Time) (e : Event)
      → ShowsLast max s seen
      → ShowsLast max (hook_on_event dates s pick now e) (seen ++ convert_to_stream_event e ∷ [])
  unfolding hook_on_event publisher_on_event publish_event on_stream_event dashboard_on_stream_event
  event-ShowsLast s seen pick now e h =
      let event = convert_to_stream_event e in
      let sent = publish_event-received pick s.publisher event 0 in
      record {
        at_zero = h.at_zero;
        named = h.named;
        once = h.once;
        dm = dashboard_on_stream_event event h.dm;
        there = ground (arith, sent, h.once, h.there);
        bound = h.bound;
        recent = shown h.dm h.bound h.recent;
      }
    where
      shown :
          (dm : DashboardManager)
          → dm.max_events ≡ max
          → dm.recent_events ≡ last_events max seen
          → (dashboard_on_stream_event (convert_to_stream_event e) dm).recent_events
            ≡ last_events max (seen ++ convert_to_stream_event e ∷ [])
      shown dm b r =
          dashboard_on_stream_event-last_events dm seen (convert_to_stream_event e)
            (r ∙ ap (λ n. last_events n seen) (sym b))
          ∙ ap (λ n. last_events n (seen ++ convert_to_stream_event e ∷ [])) b

  subscribe-ShowsLast :
      (s : AnalyticsService) (seen : List StreamEvent) (id : Text) (p : ℕ) (sub : StreamSubscriber)
      → id ≢ board_name
      → p ≢ 0
      → ShowsLast max s seen
      → ShowsLast max (subscribe_to_realtime dates s id p sub) seen
  unfolding subscribe_to_realtime subscribe
  subscribe-ShowsLast s seen id p sub ne nz h =
      let (named, same) = put-Named s.publisher.subscribers id p ne nz h.named in
      record {
        at_zero = h.at_zero;
        named = named;
        once = same ∙ h.once;
        dm = h.dm;
        there = ground (arith, h.there);
        bound = h.bound;
        recent = h.recent;
      }

  unsubscribe-ShowsLast :
      (s : AnalyticsService) (seen : List StreamEvent) (id : Text)
      → id ≢ board_name
      → ShowsLast max s seen
      → ShowsLast max (unsubscribe_from_realtime dates s id) seen
  unfolding unsubscribe_from_realtime unsubscribe
  unsubscribe-ShowsLast s seen id ne h = elim (Option-cases (get s.publisher.subscribers id)) [
    | inl e ↦ rw (e, unsubscribe) h
    | inr (p, e) ↦
        let (named, same) = delete-Named s.publisher.subscribers id ne h.named in
        let apart = get-Named s.publisher.subscribers id p ne h.named e in
        rw (e, unsubscribe)
          (record {
            at_zero = h.at_zero;
            named = named;
            once = same ∙ h.once;
            dm = h.dm;
            there = ground (arith, h.there);
            bound = h.bound;
            recent = h.recent;
          })
  ]

  append_one : (xs ys : List StreamEvent) (x : StreamEvent) → (xs ++ x ∷ []) ++ ys ≡ xs ++ x ∷ ys
  append_one [] ys x = refl
  append_one (y ∷ xs) ys x = ap (λ l. y ∷ l) (append_one xs ys x)

  serve-ShowsLast :
      (calls : List ServiceCall) (s : AnalyticsService) (seen : List StreamEvent)
      → Spares calls
      → ShowsLast max s seen
      → ShowsLast max (serve dates s calls) (seen ++ streamed (events_of calls))
        × ((serve dates s calls).metrics ≡ observe dates.calendar s.metrics (events_of calls))
  unfolding serve observe hook_on_event publisher_on_event subscribe_to_realtime
      unsubscribe_from_realtime force_aggregation
  serve-ShowsLast [] s seen sp h = (subst (ShowsLast max s) (sym (append_nil seen)) h, refl)
    where
      append_nil : (xs : List StreamEvent) → xs ++ [] ≡ xs
      append_nil [] = refl
      append_nil (x ∷ xs) = ap (λ l. x ∷ l) (append_nil xs)
  serve-ShowsLast (call_event pick now e ∷ calls) s seen sp h =
      let (shows, metrics) =
        serve-ShowsLast calls (hook_on_event dates s pick now e)
          (seen ++ convert_to_stream_event e ∷ []) sp (event-ShowsLast s seen pick now e h) in
      (
        subst (ShowsLast max _)
            (append_one seen (streamed (events_of calls)) (convert_to_stream_event e)) shows,
        metrics,
      )
  serve-ShowsLast (call_subscribe id p sub ∷ calls) s seen sp h =
      serve-ShowsLast calls _ seen sp.2 (subscribe-ShowsLast s seen id p sub sp.0 sp.1 h)
  serve-ShowsLast (call_unsubscribe id ∷ calls) s seen sp h =
      serve-ShowsLast calls _ seen sp.1 (unsubscribe-ShowsLast s seen id sp.0 h)
  serve-ShowsLast (call_aggregate now ∷ calls) s seen sp h =
      serve-ShowsLast calls _ seen sp (record {
        at_zero = h.at_zero;
        named = h.named;
        once = h.once;
        dm = h.dm;
        there = h.there;
        bound = h.bound;
        recent = h.recent;
      })

  service_with-ShowsLast :
      (heap : Heap) (start interval : Time) (exporters : List Exporter)
      → (s : AnalyticsService) × (service_with heap start interval (pos max) exporters ≡ some s)
        × (s.metrics ≡ new_comprehensive_metrics start)
        × ShowsLast max s []
  unfolding service_with new_dashboard_manager new_stream_publisher subscribe put receivers
  service_with-ShowsLast heap start interval exporters = (
    _,
    refl,
    refl,
    record {
      at_zero = refl;
      named = (λ e. refl, tt);
      once = refl;
      dm = record { recent_events = []; max_events = max };
      there = refl;
      bound = refl;
      recent = sym (drop_zero [] (0 - max) (omega arith));
    },
  )

  -- A service whose dashboard has room for `max` events, after any calls that leave the name and
  -- the address of the dashboard alone, with other subscribers coming and going: the dashboard
  -- shows the last `max` events of the hook as stream events, in their order, and the report of
  -- metrics that have seen all of them.
  pub serve_board :
      (heap : Heap) (start interval now : Time) (exporters : List Exporter)
      (calls : List ServiceCall)
      → Spares calls
      → (s : AnalyticsService) × (service_with heap start interval (pos max) exporters ≡ some s)
        × ((shown : DashboardData) × (service_dashboard (serve dates s calls) now ≡ some shown)
            × (shown.recent_events ≡ last_events max (streamed (events_of calls)))
            × (shown.top_metrics
                ≡ get_top_metrics
                    (observe dates.calendar (new_comprehensive_metrics start) (events_of calls))
                    (pos 10)))
  unfolding service_dashboard get_dashboard_data
  serve_board heap start interval now exporters calls sp =
      let (s, made, fresh, begun) = service_with-ShowsLast heap start interval exporters in
      let (shows, metrics) = serve-ShowsLast calls s [] sp begun in
      let after = serve dates s calls in
      (
        s,
        made,
        (
          get_dashboard_data after.metrics after.publisher shows.dm now,
          ground (arith, shows.at_zero, shows.there),
          shows.recent,
          ap (λ cm. get_top_metrics cm (pos 10))
              (metrics ∙ ap (λ cm. observe dates.calendar cm (events_of calls)) fresh),
        ),
      )
