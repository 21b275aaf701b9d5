-- ===== src/Engine/Bus.antt =====
-- engine/eventbus.go. A handler is a function on the state `W` of what stands behind it; a
-- handler that calls back into the bus is not modelled. Go visits the subscriptions of a type in
-- no fixed order, which may be another for each event: a bus has a choice of it.
pub mod Subscribing
pub mod Workers
use mathlib.Core.List.{Permᴰ}
use gamifykit.Prelude.{
  ℕ, suc, ◌+◌, Bool, true, false, List, [], ◌∷◌, ◌++◌, map, ltb, length, if◌then◌else◌, none, some,
}
use gamifykit.Prelude.GoMap.{GoMap, get, get_or, put, delete, nat_key}
use gamifykit.Core.Events.{EventType, Event, event_type_key}

pub data DispatchMode : Type 0 where
  dispatch_sync_mode dispatch_async_mode : DispatchMode

abbrev pub Handler : Type 0 → Type 0
Handler W = Event → W → W

pub record Subscription (W : Type 0) : Type 0 where
  pub id : ℕ
  pub typ : EventType
  pub fn : Handler W

-- The order in which Go ranges over the subscriptions of a type, which it leaves open: for each
-- event and state of the handlers some arrangement of the entries, with each of them once.
pub record MapOrder (W : Type 0) : Type 0 where
  pub arranged : Event → W → GoMap ℕ (Subscription W) → GoMap ℕ (Subscription W)
  pub arranged-Perm :
      (ev : Event) (w : W) (m : GoMap ℕ (Subscription W)) → Permᴰ (arranged ev w m) m

-- `async_queue` is the buffered channel, oldest event first. `cancelled` is the state of `ctx`.
pub record EventBus (W : Type 0) : Type 0 where
  pub mode : DispatchMode
  pub subs : GoMap EventType (GoMap ℕ (Subscription W))
  pub next_id : ℕ
  pub async_queue : List Event
  pub cancelled : Bool
  pub range_order : MapOrder W

abbrev pub queue_size : ℕ
queue_size = 2048

module _ {W : Type 0} where
  unfoldable pub new_event_bus : MapOrder W → DispatchMode → EventBus W
  new_event_bus order mode = record {
    mode = mode;
    subs = [];
    next_id = 0;
    async_queue = [];
    cancelled = false;
    range_order = order;
  }

  -- The second result is the id that the returned function deletes.
  unfoldable pub subscribe : EventBus W → EventType → Handler W → EventBus W × ℕ
  subscribe e typ handler =
      let id = e.next_id + 1 in
      let sub : Subscription W = record { id = id; typ = typ; fn = handler } in
      (record e { next_id = id; subs = put e.subs typ (put (get_or e.subs typ []) id sub) }, id)

  -- The function that `Subscribe` returns.
  unfoldable pub unsubscribe : EventBus W → EventType → ℕ → EventBus W
  unsubscribe e typ id = elim (get e.subs typ) [
    | none ↦ e
    | some m ↦ record e { subs = put e.subs typ (delete m id) }
  ]

  -- The copy that is made under the read lock.
  unfoldable pub handlers_of : EventBus W → Event → W → List (Handler W)
  handlers_of e ev w =
      map (λ entry. (entry.1).fn) (e.range_order.arranged ev w (get_or e.subs ev.typ []))

  unfoldable pub call_all : List (Handler W) → Event → W → W
  call_all [] ev w = w
  call_all (h ∷ hs) ev w = call_all hs ev (h ev w)

  unfoldable pub dispatch_sync : EventBus W → Event → W → W
  unfolding handlers_of call_all
  dispatch_sync e ev w = call_all (handlers_of e ev w) ev w

  -- A full queue drops the event.
  unfoldable pub publish : EventBus W → Event → W → EventBus W × W
  publish e ev w = elim e.mode [
    | dispatch_async_mode ↦ (
      if ltb (length e.async_queue) queue_size
          then record e { async_queue = e.async_queue ++ ev ∷ [] }
          else e,
      w,
    )
    | dispatch_sync_mode ↦ (e, dispatch_sync e ev w)
  ]

  -- The waiting workers see the cancelled context and return.
  unfoldable pub close : EventBus W → EventBus W
  close e = record e { cancelled = true }
