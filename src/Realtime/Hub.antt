-- ===== src/Realtime/Hub.antt =====
-- realtime/hub.go. A channel stays reachable for its reader after it is unsubscribed, so that
-- channels live in a heap of their own; a channel's address is the id of its subscription, which
-- no other ever has. A buffered channel holds its events oldest first. A send on a closed channel
-- panics: `none`. A reader that waits on an unbuffered channel is not modelled.
pub mod Delivery
pub mod Race
use gamifykit.Prelude.{
  ℕ, ◌+◌, Bool, true, false, List, [], ◌∷◌, ◌++◌, map, ltb, length, if◌then◌else◌, Option, none,
  some,
}
use gamifykit.Prelude.GoMap.{GoMap, get, put, delete, nat_key}
use gamifykit.Core.Events.{Event}

pub record Channel : Type 0 where
  pub buffer_size : ℕ
  pub buffered : List Event
  pub is_closed : Bool

abbrev pub Heap : Type 0
Heap = GoMap ℕ Channel

pub record Hub : Type 0 where
  pub subs : GoMap ℕ ℕ
  pub next : ℕ
  pub heap : Heap

unfoldable pub new_hub : Hub
new_hub = record { subs = []; next = 0; heap = [] }

abbrev pub make_channel : ℕ → Channel
make_channel buffer = record { buffer_size = buffer; buffered = []; is_closed = false }

-- The id, which is also where the channel is.
unfoldable pub subscribe : Hub → ℕ → ℕ × Hub
subscribe h buffer =
    let id = h.next + 1 in
    (id, record { subs = put h.subs id id; next = id; heap = put h.heap id (make_channel buffer) })

unfoldable pub close_channel : Heap → ℕ → Heap
close_channel heap ch = elim (get heap ch) [
  | none ↦ heap
  | some c ↦ put heap ch (record c { is_closed = true })
]

unfoldable pub unsubscribe : Hub → ℕ → Hub
unsubscribe h id = elim (get h.subs id) [
  | none ↦ h
  | some ch ↦ record h { subs = delete h.subs id; heap = close_channel h.heap ch }
]

-- An open channel takes the event if there is room, and drops it if there is none.
abbrev pub offer : Event → Channel → Channel
offer ev c =
    if ltb (length c.buffered) c.buffer_size
    then record c { buffered = c.buffered ++ ev ∷ [] }
    else c

-- `select { case ch <- ev: default: }`
unfoldable pub try_send : Heap → ℕ → Event → Option Heap
try_send heap ch ev = elim (get heap ch) [
  | none ↦ none
  | some c ↦ if c.is_closed then none else some (put heap ch (offer ev c))
]

-- The copy of the receivers that `Broadcast` makes under the read lock.
unfoldable pub receivers : Hub → List ℕ
receivers h = map (λ entry. entry.1) h.subs

-- The sends, which it makes after it gave the lock back.
unfoldable pub send_all : List ℕ → Event → Heap → Option Heap
send_all [] ev heap = some heap
send_all (ch ∷ chs) ev heap = elim (try_send heap ch ev) [
  | none ↦ none
  | some heap' ↦ send_all chs ev heap'
]

-- `Broadcast`, when nothing else touches the hub meanwhile.
unfoldable pub broadcast : Hub → Event → Option Hub
broadcast h ev = elim (send_all (receivers h) ev h.heap) [
  | none ↦ none
  | some heap ↦ some (record h { heap = heap })
]
