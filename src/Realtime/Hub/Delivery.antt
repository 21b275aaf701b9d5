-- ===== src/Realtime/Hub/Delivery.antt =====
-- Who receives a broadcast.
use gamifykit.Prelude.{
  ℕ, ◌+◌, ◌<◌, ◌≡◌, refl, arith, if_pos, if_neg, ℕ_discrete, true, false, [], ◌∷◌, map, Option,
  none, some, Option-cases, inl, inr,
}
use gamifykit.Prelude.GoMap.{GoMap, get, put, delete, get-put, get-delete, nat_key}
use gamifykit.Core.Events.{Event}
use gamifykit.Realtime.Hub.{
  Channel, Heap, Hub, new_hub, make_channel, subscribe, close_channel, unsubscribe, offer, try_send,
  receivers, send_all, broadcast,
}

-- The entries of the subscriptions are their own channels, each once, and each channel is open.
abbrev pub AreOpen : GoMap ℕ ℕ → Heap → Type 0
AreOpen [] heap = Unit {0}
AreOpen ((id, ch) ∷ subs) heap =
    (ch ≡ id)
    × (get subs id ≡ none)
    × ((c : Channel) × (get heap id ≡ some c) × (c.is_closed ≡ false))
    × AreOpen subs heap

-- What one event does to the channel of a subscription, and to any other.
abbrev pub offered : GoMap ℕ ℕ → Event → ℕ → Option Channel → Option Channel
offered subs ev id none = none
offered subs ev id (some c) = elim (get subs id) [ none ↦ some c | some _ ↦ some (offer ev c) ]

AreOpen-put :
    (subs : GoMap ℕ ℕ) (heap : Heap) (id : ℕ) (c : Channel)
    → get subs id ≡ none
    → AreOpen subs heap
    → AreOpen subs (put heap id c)
unfolding get
AreOpen-put [] heap id c h o = tt
AreOpen-put ((j, ch) ∷ subs) heap id c h (own, once, (d, there, open_), rest) = (
  own,
  once,
  (d, ground (arith, get-put heap id j c), open_),
  AreOpen-put subs heap id c (ground arith) rest,
)

abbrev Sent : GoMap ℕ ℕ → Event → Heap → Type 0
Sent subs ev heap =
    (heap' : Heap) × (send_all (map (λ entry. entry.1) subs) ev heap ≡ some heap')
    × ((id : ℕ) → get heap' id ≡ offered subs ev id (get heap id))

send_all-Sent :
    (subs : GoMap ℕ ℕ) (ev : Event) (heap : Heap) → AreOpen subs heap → Sent subs ev heap
unfolding send_all try_send get
send_all-Sent [] ev heap o = (heap, refl, λ id. ground arith)
send_all-Sent ((j, ch) ∷ subs) ev heap (own, once, (c, there, open_), rest) =
    let (heap', sent, got) =
      send_all-Sent subs ev (put heap j (offer ev c))
        (AreOpen-put subs heap j (offer ev c) once rest) in
    (
      heap',
      ground (arith, own, there, open_, sent),
      λ id. ground (arith, got id, get-put heap j id (offer ev c), there, once),
    )

-- The state of a hub between two calls.
pub record IsValid (h : Hub) : Type 0 where
  pub open_channels : AreOpen h.subs h.heap
  pub unused : (id : ℕ) → h.next < id → get h.subs id ≡ none

pub new_hub-IsValid : IsValid new_hub
unfolding new_hub get
new_hub-IsValid = record { open_channels = tt; unused = λ id h. refl }

AreOpen-subscribe :
    (subs : GoMap ℕ ℕ) (heap : Heap) (id : ℕ) (c : Channel)
    → c.is_closed ≡ false
    → get subs id ≡ none
    → AreOpen subs heap
    → AreOpen (put subs id id) (put heap id c)
unfolding get put
AreOpen-subscribe [] heap id c o new all =
    (refl, refl, (c, ground (arith, get-put heap id id c), o), tt)
AreOpen-subscribe ((j, ch) ∷ subs) heap id c o new (own, once, (d, there, open_), rest) =
    let ih = AreOpen-subscribe subs heap id c o (ground arith) rest in
    elim (ℕ_discrete j id) [
      | yes e ↦ absurd (ground arith)
      | no ne ↦ rw (if_neg (ℕ_discrete j id) ne) (
        own,
        ground (arith, get-put subs id j id),
        (d, ground (arith, get-put heap id j c), open_),
        ih,
      )
    ]

subscribe-IsValid : (h : Hub) (buffer : ℕ) → IsValid h → IsValid (subscribe h buffer).1
unfolding subscribe
subscribe-IsValid h buffer v = record {
  open_channels =
      AreOpen-subscribe h.subs h.heap (h.next + 1) (make_channel buffer) refl
        (v.unused (h.next + 1) (omega arith)) v.open_channels;
  unused = λ id lt. ground (arith, get-put h.subs (h.next + 1) id (h.next + 1), v.unused id);
}

AreOpen-delete :
    (subs : GoMap ℕ ℕ) (heap : Heap) (id : ℕ) (c : Channel)
    → AreOpen subs heap
    → AreOpen (delete subs id) (put heap id c)
unfolding get delete
AreOpen-delete [] heap id c o = tt
AreOpen-delete ((j, ch) ∷ subs) heap id c (own, once, (d, there, open_), rest) =
    elim (ℕ_discrete j id) [
      | yes e ↦ rw (if_pos (ℕ_discrete j id) e) (AreOpen-delete subs heap id c rest)
      | no ne ↦ rw (if_neg (ℕ_discrete j id) ne) (
        own,
        ground (arith, get-delete subs id j),
        (d, ground (arith, get-put heap id j c), open_),
        AreOpen-delete subs heap id c rest,
      )
    ]

pub own_channel :
    (subs : GoMap ℕ ℕ) (heap : Heap) (id ch : ℕ)
    → AreOpen subs heap
    → get subs id ≡ some ch
    → (ch ≡ id) × ((c : Channel) × (get heap id ≡ some c) × (c.is_closed ≡ false))
unfolding get
own_channel [] heap id ch o h = cc
own_channel ((j, k) ∷ subs) heap id ch (own, once, (d, there, open_), rest) h =
    elim (ℕ_discrete j id) [
      | yes e ↦ (ground arith, (d, ground arith, open_))
      | no ne ↦ own_channel subs heap id ch rest (ground arith)
    ]

unsubscribe-none : (h : Hub) (id : ℕ) → get h.subs id ≡ none → unsubscribe h id ≡ h
unfolding unsubscribe
unsubscribe-none h id e = ground arith

-- What `Unsubscribe` does to a subscription that is there.
pub unsubscribe_lem :
    (h : Hub) (id ch : ℕ)
    → IsValid h
    → get h.subs id ≡ some ch
    → (c : Channel) × (get h.heap id ≡ some c)
      × (unsubscribe h id ≡ record h {
        subs = delete h.subs id;
        heap = put h.heap id (record c { is_closed = true });
      })
unfolding unsubscribe close_channel
unsubscribe_lem h id ch v e =
    let (own, (c, there, open_)) = own_channel h.subs h.heap id ch v.open_channels e in
    (c, there, ground arith)

unsubscribe-IsValid : (h : Hub) (id : ℕ) → IsValid h → IsValid (unsubscribe h id)
unsubscribe-IsValid h id v = elim (Option-cases (get h.subs id)) [
  | inl e ↦ rw (unsubscribe-none h id e) v
  | inr (ch, e) ↦
      let (c, there, after) = unsubscribe_lem h id ch v e in
      rw after (record {
        open_channels =
            AreOpen-delete h.subs h.heap id (record c { is_closed = true }) v.open_channels;
        unused = λ j lt. ground (arith, get-delete h.subs id j, v.unused j);
      })
]

AreOpen-offered :
    (subs all : GoMap ℕ ℕ) (ev : Event) (heap heap' : Heap)
    → ((id : ℕ) → get heap' id ≡ offered all ev id (get heap id))
    → AreOpen subs heap
    → AreOpen subs heap'
AreOpen-offered [] all ev heap heap' h o = tt
AreOpen-offered ((j, ch) ∷ subs) all ev heap heap' h (own, once, (c, there, open_), rest) =
    (own, once, still_open, AreOpen-offered subs all ev heap heap' h rest)
  where
    still_open : (d : Channel) × (get heap' j ≡ some d) × (d.is_closed ≡ false)
    still_open = elim (Option-cases (get all j)) [
      | inl e ↦ (c, ground (arith, h j), open_)
      | inr (k, e) ↦ (offer ev c, ground (arith, h j), ground arith)
    ]

-- When nothing else touches the hub, a broadcast on a valid hub does not panic and leaves it
-- valid; it offers the event once to the channel of each subscription, which appends it if there
-- is room and drops it if not, and changes no other channel and no subscription.
pub broadcast_lem :
    (h : Hub) (ev : Event)
    → IsValid h
    → (h' : Hub) × (broadcast h ev ≡ some h')
      × IsValid h'
      × (h'.subs ≡ h.subs)
      × ((id : ℕ) → get h'.heap id ≡ offered h.subs ev id (get h.heap id))
unfolding broadcast receivers
broadcast_lem h ev v =
    let (heap', sent, got) = send_all-Sent h.subs ev h.heap v.open_channels in
    (
      record h { heap = heap' },
      rw (sent, broadcast) refl,
      record {
        open_channels = AreOpen-offered h.subs h.subs ev h.heap heap' got v.open_channels;
        unused = v.unused;
      },
      refl,
      got,
    )

-- Subscribing and unsubscribing keep a hub valid, so that every hub that is reached from a new one
-- by whole calls is.
pub subscribe-unsubscribe-IsValid :
    (h : Hub) (buffer id : ℕ)
    → IsValid h
    → IsValid (subscribe h buffer).1 × IsValid (unsubscribe h id)
subscribe-unsubscribe-IsValid h buffer id v =
    (subscribe-IsValid h buffer v, unsubscribe-IsValid h id v)
