-- ===== src/Builder.antt =====
-- gamify/gamify.go: the options of `New`, and the service that it builds. A nil storage or hub is
-- `none`. What stands behind the handlers of the bus is the hub: `none` where there is none, or
-- where a broadcast on it has panicked.
pub mod Bridge
use gamifykit.Prelude.{List, [], ◌∷◌, Option, none, some}
use gamifykit.Core.Level.{Floats}
use gamifykit.Core.Events.{
  Event, EventType, points_added, level_up, badge_awarded, achievement_unlocked,
}
use gamifykit.Core.Rules.{Rule, default_rule_engine}
use gamifykit.Engine.Storage.{Storage}
use gamifykit.Engine.Bus.{
  MapOrder, DispatchMode, dispatch_async_mode, EventBus, Handler, new_event_bus, subscribe,
}
use gamifykit.Engine.Service.{GamifyService}
use gamifykit.Realtime.Hub.{Hub, broadcast}
use gamifykit.Stores.Fallback.{fallback_storage}

-- A storage adapter, and the state it is in.
abbrev pub Adapter : Type 1
Adapter = (S : Storage) × S.State

pub record Builder : Type 1 where
  pub storage : Option Adapter
  pub mode : DispatchMode
  pub rules : Rule
  pub hub : Option Hub

unfoldable pub with_storage : Adapter → Builder → Builder
with_storage s c = record c { storage = some s }

unfoldable pub with_rule_engine : Rule → Builder → Builder
with_rule_engine r c = record c { rules = r }

unfoldable pub with_dispatch_mode : DispatchMode → Builder → Builder
with_dispatch_mode m c = record c { mode = m }

unfoldable pub with_realtime : Hub → Builder → Builder
with_realtime h c = record c { hub = some h }

-- The options, applied in their order.
unfoldable pub apply_options : List (Builder → Builder) → Builder → Builder
apply_options [] c = c
apply_options (o ∷ opts) c = apply_options opts (o c)

abbrev pub adapter_of : Option Adapter → Adapter
adapter_of none = (fallback_storage, [])
adapter_of (some s) = s

-- The handler that hands an event to the hub.
abbrev pub to_hub : Handler (Option Hub)
to_hub ev none = none
to_hub ev (some h) = broadcast h ev

unfoldable pub bridge : EventBus (Option Hub) → EventBus (Option Hub)
bridge bus =
    let bus = (subscribe bus points_added to_hub).0 in
    let bus = (subscribe bus level_up to_hub).0 in
    let bus = (subscribe bus badge_awarded to_hub).0 in
    (subscribe bus achievement_unlocked to_hub).0

abbrev pub bus_of : MapOrder (Option Hub) → DispatchMode → Option Hub → EventBus (Option Hub)
bus_of order mode none = new_event_bus order mode
bus_of order mode (some h) = bridge (new_event_bus order mode)

module _ (floats : Floats) where
  unfoldable pub configure : List (Builder → Builder) → Builder
  configure opts = apply_options opts (record {
    storage = none;
    mode = dispatch_async_mode;
    rules = default_rule_engine floats;
    hub = none;
  })

  -- The service, and the rules that its operations run with.
  unfoldable pub new :
      MapOrder (Option Hub)
      → List (Builder → Builder)
      → (S : Storage) × Rule × GamifyService S (Option Hub)
  new order opts =
      let c = configure opts in
      let (S, state) = adapter_of c.storage in
      (S, c.rules, record { storage = state; bus = bus_of order c.mode c.hub; env = c.hub })
