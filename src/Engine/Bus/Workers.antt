-- ===== src/Engine/Bus/Workers.antt =====
-- The asynchronous mode: publishers and workers share the queue. A history is a sequence of
-- their steps in any order. A worker receives an event in one step and dispatches it in a later
-- one, so that the workers may finish in another order than they received in; the dispatch of one
-- event is one step. Nobody subscribes or unsubscribes meanwhile.
use mathlib.Core.List.{append_assoc, append-nil, Perm, perm_middle}
use mathlib.Core.List.Perm
use gamifykit.Prelude.{
  ℕ, ◌≤◌, ◌≡◌, refl, arith, Option, none, some, List, [], ◌∷◌, ◌++◌, ltb, length, length-append,
  if◌then◌else◌,
}
use gamifykit.Core.Events.{Event}
use gamifykit.Engine.Bus.{
  EventBus, dispatch_async_mode, queue_size, publish, dispatch_sync, close, handlers_of,
}

-- `asyncWorkers`
abbrev pub async_workers : ℕ
async_workers = 4

handled_once :
    (taken handled before after : List Event) (ev : Event)
    → Perm taken (handled ++ (before ++ ev ∷ after))
    → Perm taken ((handled ++ ev ∷ []) ++ (before ++ after))
handled_once taken handled before after ev p =
    rw (append_assoc handled (ev ∷ []) (before ++ after))
      (Perm.trans p (Perm.append_left handled (perm_middle before after)))

module _ {W : Type 0} where
  -- A worker that is not busy receives the oldest event; `busy` are the events in the hands of
  -- the workers, and `none` is the wait.
  unfoldable pub receive : EventBus W → List Event → Option (Event × EventBus W × List Event)
  receive e busy =
      if ltb (length busy) async_workers
      then (elim e.async_queue [
        | [] ↦ none
        | ev ∷ rest ↦ some (ev, record e { async_queue = rest }, busy ++ ev ∷ [])
      ])
      else none

  -- The events that `Publish` puts in the queue: `ev`, or none.
  abbrev pub accepted_by : EventBus W → Event → List Event
  accepted_by e ev = if ltb (length e.async_queue) queue_size then ev ∷ [] else []

  unfoldable pub deliver_all : EventBus W → List Event → W → W
  deliver_all e [] w = w
  deliver_all e (ev ∷ evs) w = deliver_all e evs (dispatch_sync e ev w)

  -- The histories from `start` and `env`, with the events accepted, taken, handled and in the
  -- hands of the workers so far.
  pub data History (start : EventBus W) (env : W)
      : List Event → List Event → List Event → List Event → EventBus W → W → Type 0 where
    begin : History start env [] [] [] [] start env
    published :
        {accepted taken handled busy : List Event} {e : EventBus W} {w : W} (ev : Event)
        → History start env accepted taken handled busy e w
        → History start env
            (accepted ++ accepted_by e ev)
            taken
            handled
            busy
            (publish e ev w).0
            (publish e ev w).1
    received :
        {accepted taken handled busy busy' : List Event} {e e' : EventBus W} {w : W} (ev : Event)
        → History start env accepted taken handled busy e w
        → receive e busy ≡ some (ev, e', busy')
        → History start env accepted (taken ++ ev ∷ []) handled busy' e' w
    dispatched :
        {accepted taken handled : List Event} {e : EventBus W} {w : W} (before after : List Event)
        (ev : Event)
        → History start env accepted taken handled (before ++ ev ∷ after) e w
        → History start env accepted taken
            (handled ++ ev ∷ [])
            (before ++ after)
            e
            (dispatch_sync e ev w)
    closed :
        {accepted taken handled busy : List Event} {e : EventBus W} {w : W}
        → History start env accepted taken handled busy e w
        → History start env accepted taken handled busy (close e) w

  pub record InOrder (start : EventBus W) (env : W) (accepted taken handled busy : List Event)
      (e : EventBus W) (w : W) : Type 0 where
    pub same_mode : e.mode ≡ dispatch_async_mode
    pub same_subs : e.subs ≡ start.subs
    pub same_order : e.range_order ≡ start.range_order
    pub in_order : accepted ≡ taken ++ e.async_queue
    pub bounded : length e.async_queue ≤ queue_size
    pub few_busy : length busy ≤ async_workers
    pub each_once : Perm taken (handled ++ busy)
    pub delivered : w ≡ deliver_all start handled env

  deliver_all-append :
      (e : EventBus W) (evs : List Event) (ev : Event) (w : W)
      → deliver_all e (evs ++ ev ∷ []) w ≡ dispatch_sync e ev (deliver_all e evs w)
  unfolding deliver_all
  deliver_all-append e [] ev w = refl
  deliver_all-append e (d ∷ evs) ev w = deliver_all-append e evs ev (dispatch_sync e d w)

  dispatch_same :
      (d e : EventBus W) (ev : Event) (w : W)
      → e.subs ≡ d.subs
      → e.range_order ≡ d.range_order
      → dispatch_sync e ev w ≡ dispatch_sync d ev w
  unfolding dispatch_sync handlers_of
  dispatch_same d e ev w h k = cc

  publish-InOrder :
      (start : EventBus W) (env : W) (accepted taken handled busy : List Event) (e : EventBus W)
      (w : W) (ev : Event)
      → InOrder start env accepted taken handled busy e w
      → InOrder start env
          (accepted ++ accepted_by e ev)
          taken
          handled
          busy
          (publish e ev w).0
          (publish e ev w).1
  unfolding publish
  publish-InOrder start env accepted taken handled busy e w ev i = ground (
    arith,
    length-append e.async_queue (ev ∷ []),
    append_assoc taken e.async_queue (ev ∷ []),
    append-nil accepted,
  )

  receive-InOrder :
      (start : EventBus W) (env : W) (accepted taken handled busy busy' : List Event)
      (e e' : EventBus W) (w : W) (ev : Event)
      → receive e busy ≡ some (ev, e', busy')
      → InOrder start env accepted taken handled busy e w
      → InOrder start env accepted (taken ++ ev ∷ []) handled busy' e' w
  unfolding receive
  receive-InOrder start env accepted taken handled busy busy' e e' w ev h i =
      let once = Perm.append_right (ev ∷ []) i.each_once in
      ground (
        arith,
        once,
        append_assoc taken (ev ∷ []) e'.async_queue,
        append_assoc handled busy (ev ∷ []),
        length-append busy (ev ∷ []),
      )

  dispatch-InOrder :
      (start : EventBus W) (env : W) (accepted taken handled before after : List Event)
      (e : EventBus W) (w : W) (ev : Event)
      → InOrder start env accepted taken handled (before ++ ev ∷ after) e w
      → InOrder start env accepted taken
          (handled ++ ev ∷ [])
          (before ++ after)
          e
          (dispatch_sync e ev w)
  dispatch-InOrder start env accepted taken handled before after e w ev i = record {
    same_mode = i.same_mode;
    same_subs = i.same_subs;
    same_order = i.same_order;
    in_order = i.in_order;
    bounded = i.bounded;
    few_busy =
        ground (arith, i.few_busy, length-append before after, length-append before (ev ∷ after));
    each_once = handled_once taken handled before after ev i.each_once;
    delivered = ground (
      arith,
      i.delivered,
      deliver_all-append start handled ev env,
      dispatch_same start e ev w i.same_subs i.same_order,
    );
  }

  -- On a bus that starts with an empty queue, whatever the interleaving of publishers, workers and
  -- `Close`: what was accepted is what the workers took followed by what waits, in the order of
  -- publishing; each event taken is handled or in the hands of a worker, once, so that none is
  -- lost, doubled or made up behind the queue; at most `queue_size` wait and `async_workers` are
  -- in hands; and the handlers have run on the events handled and on no others.
  pub History-InOrder :
      (start : EventBus W) (env : W)
      → start.mode ≡ dispatch_async_mode
      → start.async_queue ≡ []
      → {accepted taken handled busy : List Event} {e : EventBus W} {w : W}
      → History start env accepted taken handled busy e w
      → InOrder start env accepted taken handled busy e w
  unfolding close deliver_all
  History-InOrder start env m q begin = let once = Perm.refl {A = Event} [] in ground (arith, once)
  History-InOrder start env m q (published {accepted} {taken} {handled} {busy} {e} {w} ev h) =
      publish-InOrder start env accepted taken handled busy e w ev (History-InOrder start env m q h)
  History-InOrder start env m q
        (received {accepted} {taken} {handled} {busy} {busy'} {e} {e'} {w} ev h took) =
      receive-InOrder start env accepted taken handled busy busy' e e' w ev took
        (History-InOrder start env m q h)
  History-InOrder start env m q
        (dispatched {accepted} {taken} {handled} {e} {w} before after ev h) =
      dispatch-InOrder start env accepted taken handled before after e w ev
        (History-InOrder start env m q h)
  History-InOrder start env m q (closed h) =
      let i = History-InOrder start env m q h in
      record {
        same_mode = i.same_mode;
        same_subs = i.same_subs;
        same_order = i.same_order;
        in_order = i.in_order;
        bounded = i.bounded;
        few_busy = i.few_busy;
        each_once = i.each_once;
        delivered = i.delivered;
      }
