-- ===== src/Builder/Bridge.antt =====
-- What the bridge of `New` hands to the hub.
use gamifykit.Prelude.{
  ℕ, [], ◌∷◌, map, ◌≡◌, refl, arith, List, Option, none, some, if◌then◌else◌, Bool, true, false,
}
use gamifykit.Prelude.GoMap.{GoMap, get, get_or, put}
use gamifykit.Core.Level.{Floats}
use gamifykit.Core.Events.{
  Event, EventType, EventType-discrete, points_added, level_up, badge_awarded, achievement_unlocked,
  other_type, event_type_key,
}
use gamifykit.Engine.Bus.{
  MapOrder, Subscription, DispatchMode, dispatch_sync_mode, dispatch_async_mode, EventBus,
  new_event_bus, subscribe, handlers_of, call_all, dispatch_sync,
}
use gamifykit.Engine.Bus
use gamifykit.Engine.Bus.Subscribing.{one_arranged, none_arranged}
use gamifykit.Engine.Service.{publish}
use gamifykit.Realtime.Hub.{Hub, broadcast}
use gamifykit.Builder.{Builder, bridge, bus_of, configure, new}

abbrev pub is_primary : EventType → Bool
is_primary (other_type _) = false
is_primary points_added = true
is_primary level_up = true
is_primary badge_awarded = true
is_primary achievement_unlocked = true

-- The only subscription of a type is called, in whatever order.
called_alone :
    (order : MapOrder (Option Hub)) (entry : ℕ × Subscription (Option Hub)) (ev : Event)
    (hub : Option Hub)
    → call_all (map (λ x. (x.1).fn) (order.arranged ev hub (entry ∷ []))) ev hub
      ≡ (entry.1).fn ev hub
unfolding call_all
called_alone order entry ev hub =
    rw (one_arranged (order.arranged-Perm ev hub (entry ∷ [])) entry refl) refl

called_none :
    (order : MapOrder (Option Hub)) (ev : Event) (hub : Option Hub)
    → call_all (map (λ x. (x.1).fn) (order.arranged ev hub [])) ev hub ≡ hub
unfolding call_all
called_none order ev hub = rw (none_arranged (order.arranged-Perm ev hub []) refl) refl

abbrev bridged_subs : MapOrder (Option Hub) → EventType → GoMap ℕ (Subscription (Option Hub))
bridged_subs order typ = get_or (bridge (new_event_bus order dispatch_sync_mode)).subs typ []

bridged :
    (order : MapOrder (Option Hub)) (typ : EventType) (h : Hub) (ev : Event)
    → call_all
        (map (λ x. (x.1).fn) (order.arranged ev (some h) (bridged_subs order typ)))
        ev
        (some h)
      ≡ (if is_primary typ then broadcast h ev else some h)
unfolding bridge new_event_bus subscribe get put EventType-discrete
bridged order points_added h ev = called_alone order _ ev (some h)
bridged order level_up h ev = called_alone order _ ev (some h)
bridged order badge_awarded h ev = called_alone order _ ev (some h)
bridged order achievement_unlocked h ev = called_alone order _ ev (some h)
bridged order (other_type t) h ev = called_none order ev (some h)

sync_bridged :
    (order : MapOrder (Option Hub)) (h : Hub) (ev : Event)
    → (Bus.publish (bridge (new_event_bus order dispatch_sync_mode)) ev (some h)).1
      ≡ (if is_primary ev.typ then broadcast h ev else some h)
unfolding Bus.publish dispatch_sync handlers_of bridge new_event_bus subscribe
sync_bridged order h ev = bridged order ev.typ h ev

publish_bridged :
    (order : MapOrder (Option Hub)) (mode : DispatchMode) (hub : Option Hub) (h : Hub) (ev : Event)
    → mode ≡ dispatch_sync_mode
    → hub ≡ some h
    → (Bus.publish (bus_of order mode hub) ev hub).1
      ≡ (if is_primary ev.typ then broadcast h ev else some h)
publish_bridged order dispatch_sync_mode (some k) h ev m e = ground (arith, sync_bridged order k ev)
publish_bridged order dispatch_sync_mode none h ev m e = ground arith
publish_bridged order dispatch_async_mode hub h ev m e = ground arith

-- A service that `New` builds with a hub, in the synchronous mode and whatever the other
-- options,
-- broadcasts each event of the four types it publishes on the hub, once, and no other event.
pub publish-new :
    (floats : Floats) (order : MapOrder (Option Hub)) (opts : List (Builder → Builder)) (h : Hub)
    (ev : Event)
    → (configure floats opts).mode ≡ dispatch_sync_mode
    → (configure floats opts).hub ≡ some h
    → (publish (new floats order opts).2 ev).env
      ≡ (if is_primary ev.typ then broadcast h ev else some h)
unfolding publish new
publish-new floats order opts h ev m e =
    publish_bridged order (configure floats opts).mode (configure floats opts).hub h ev m e
