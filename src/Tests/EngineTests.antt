-- ===== src/Tests/EngineTests.antt =====
-- The theorems on engine/ at concrete inputs: a service on the in-memory backend, with one handler
-- that records the events it is called with.
use mathlib.Core.List.{Perm}
use gamifykit.Prelude.{
  ℕ, ◌≡◌, ◌≢◌, ℕ_discrete, refl, arith, none, some, List, [], ◌∷◌, ◌++◌, ok, err, ite,
}
use gamifykit.Prelude.Int.{ℤ, pos, ◌≤ℤ◌, ℤ-discrete}
use gamifykit.Prelude.Text.{text, text_key, Text-discrete}
use gamifykit.Core.{metric_xp, delta_zero, UserId, Metric}
use gamifykit.Core.Arith.{add_safe}
use gamifykit.Core.UserName.{normalize_user_id}
use gamifykit.Core.BadgeName.{validate_badge_id}
use gamifykit.Core.Level.{default_level}
use gamifykit.Core.Rules.{default_rule_engine}
use gamifykit.Core.Events.{
  Event, EventType-discrete, points_added, new_points_added, new_badge_awarded,
}
use gamifykit.Engine.Storage.{with_points}
use gamifykit.Engine.Bus.{
  EventBus, Handler, dispatch_sync_mode, dispatch_async_mode, new_event_bus, handlers_of,
}
use gamifykit.Engine.Bus
use gamifykit.Engine.Bus.Subscribing.{
  new_event_bus-IsFresh, subscribe-IsFresh, attached, run_each, publish-subscribe,
}
use gamifykit.Engine.Bus.Workers.{begin, published, InOrder, History-InOrder}
use gamifykit.Engine.Service.{GamifyService, add_points, award_badge, evaluate_rules, get_state}
use gamifykit.Engine.Service.Outcomes.{publish_all, award_badge_outcome}
use gamifykit.Engine.Service.Levels.{
  leveled, level_events, add_points-profile, add_points_level_current,
}
use gamifykit.Stores.Memory.{memory_storage}
use gamifykit.Stores.Memory.Keeps.{memory_contract, memory-IsReliable}
use gamifykit.Stores.Table.{IsFiled-empty}
use gamifykit.Tests.Instances.{ascii_table, whole_floats, in_entry_order, against_entry_order}

abbrev Log : Type 0
Log = List Event

abbrev record_event : Handler Log
record_event ev log = log ++ ev ∷ []

abbrev sync_bus : EventBus Log
sync_bus = new_event_bus in_entry_order dispatch_sync_mode

abbrev async_bus : EventBus Log
async_bus = new_event_bus in_entry_order dispatch_async_mode

abbrev alice : UserId
alice = text "alice"

abbrev gained : Event
gained = new_points_added 7 alice metric_xp (pos 400) (pos 400)

-- A bus that has a handler, where maps are ranged over against the order of their entries.
abbrev clear_events : Handler Log
clear_events ev log = []

abbrev backward_bus : EventBus Log
backward_bus =
    (Bus.subscribe (new_event_bus against_entry_order dispatch_sync_mode) points_added
      clear_events).0

publish-subscribe_example :
    ((hs : List (Handler Log)) × Perm hs (
        ite
          (EventType-discrete points_added gained.typ)
          (attached backward_bus gained.typ ++ record_event ∷ [])
          (attached backward_bus gained.typ))
      × ((Bus.publish (Bus.subscribe backward_bus points_added record_event).0 gained []).1
          ≡ run_each hs gained []))
    × ((hs : List (Handler Log)) × Perm hs (attached backward_bus gained.typ)
        × ((Bus.publish
              (Bus.unsubscribe
                (Bus.subscribe backward_bus points_added record_event).0
                points_added
                (Bus.subscribe backward_bus points_added record_event).1)
              gained
              []).1
            ≡ run_each hs gained []))
unfolding new_event_bus Bus.subscribe
publish-subscribe_example =
    publish-subscribe backward_bus points_added record_event gained []
      (subscribe-IsFresh (new_event_bus against_entry_order dispatch_sync_mode) points_added
        clear_events (new_event_bus-IsFresh against_entry_order dispatch_sync_mode))
      refl

History-InOrder_example :
    InOrder async_bus []
      (gained ∷ [])
      []
      []
      []
      (Bus.publish async_bus gained []).0
      (Bus.publish async_bus gained []).1
unfolding new_event_bus Bus.publish
History-InOrder_example = History-InOrder async_bus [] refl refl (published gained begin)

abbrev service : GamifyService memory_storage Log
service = record { storage = []; bus = sync_bus; env = [] }

abbrev played : GamifyService memory_storage Log
played =
    (add_points (default_rule_engine whole_floats) ascii_table service 7 alice metric_xp
      (pos 400)).1

abbrev badged : GamifyService memory_storage Log
badged = (award_badge ascii_table service 7 alice (text "streak_7")).1

award_badge_outcome_example :
    (u : UserId) × (normalize_user_id ascii_table alice ≡ ok u)
    × (validate_badge_id (text "streak_7") ≡ none)
    × (memory_storage.award_badge [] 7 u (text "streak_7") ≡ (none, badged.storage))
    × ((badged.bus, badged.env)
        ≡ publish_all sync_bus [] (new_badge_awarded 7 u (text "streak_7") ∷ []))
unfolding award_badge normalize_user_id gamifykit.Core.UserName.trim_space
    gamifykit.Core.UserName.is_space validate_badge_id gamifykit.Engine.Service.award_badge_to
    gamifykit.Stores.Memory.award_badge
award_badge_outcome_example =
    award_badge_outcome ascii_table service 7 alice (text "streak_7") badged refl

add_points-profile_example :
    (u : UserId) × (normalize_user_id ascii_table alice ≡ ok u)
    × (add_safe ((memory_contract.profile [] u).points metric_xp) (pos 400) ≡ ok (pos 400))
    × (let after = with_points metric_xp (pos 400) (memory_contract.profile [] u) in
        ((v : UserId)
          → memory_contract.profile played.storage v
            ≡ ite
                (Text-discrete u v)
                (leveled whole_floats metric_xp after)
                (memory_contract.profile [] v))
        × ((played.bus, played.env)
            ≡ publish_all sync_bus [] (
                new_points_added 7 u metric_xp (pos 400) (pos 400)
                ∷ level_events whole_floats 7 u metric_xp after)))
unfolding add_points memory_contract gamifykit.Stores.Table.Backend.table_contract ℤ-discrete
    ℕ_discrete normalize_user_id gamifykit.Core.UserName.trim_space gamifykit.Core.UserName.is_space
    gamifykit.Engine.Service.add_points_to add_safe gamifykit.Prelude.Int.sub64
    gamifykit.Prelude.Int.wrap64 gamifykit.Prelude.Int.◌-ℤ◌ gamifykit.Prelude.GoMap.get
    gamifykit.Stores.Memory.get_or_create gamifykit.Prelude.Int.add64 gamifykit.Prelude.Int.◌+ℤ◌
add_points-profile_example =
    add_points-profile whole_floats memory_contract memory-IsReliable ascii_table service 7 alice
      metric_xp (pos 400) (pos 400) played IsFiled-empty refl

add_points_level_current_example :
    (u : UserId) × (normalize_user_id ascii_table alice ≡ ok u)
    × ((memory_contract.profile played.storage u).points metric_xp ≡ pos 400)
    × (default_level whole_floats (pos 400)
        ≤ℤ (memory_contract.profile played.storage u).levels metric_xp)
    × ((memory_contract.profile [] u).levels metric_xp
        ≤ℤ (memory_contract.profile played.storage u).levels metric_xp)
unfolding add_points memory_contract gamifykit.Stores.Table.Backend.table_contract ℤ-discrete
    ℕ_discrete normalize_user_id gamifykit.Core.UserName.trim_space gamifykit.Core.UserName.is_space
    gamifykit.Engine.Service.add_points_to add_safe gamifykit.Prelude.Int.sub64
    gamifykit.Prelude.Int.wrap64 gamifykit.Prelude.Int.◌-ℤ◌ gamifykit.Prelude.GoMap.get
    gamifykit.Stores.Memory.get_or_create gamifykit.Prelude.Int.add64 gamifykit.Prelude.Int.◌+ℤ◌
add_points_level_current_example =
    add_points_level_current whole_floats memory_contract memory-IsReliable ascii_table service 7
      alice (pos 400) (pos 400) played IsFiled-empty refl
