-- ===== src/Realtime/Hub/Race.antt =====
-- A broadcast that is interrupted: `Unsubscribe` closes the channel between the copy of the
-- receivers and the sends.
use gamifykit.Prelude.{
  ℕ, ◌≡◌, refl, arith, true, [], ◌∷◌, map, none, some, Option-cases, inl, inr, ℕ_discrete,
}
use gamifykit.Prelude.GoMap.{GoMap, get, get-put, nat_key}
use gamifykit.Core.Events.{Event}
use gamifykit.Realtime.Hub.{Channel, Heap, Hub, unsubscribe, offer, try_send, receivers, send_all}
use gamifykit.Realtime.Hub.Delivery.{IsValid, own_channel, unsubscribe_lem}

abbrev IsClosedAt : Heap → ℕ → Type 0
IsClosedAt heap ch = (c : Channel) × (get heap ch ≡ some c) × (c.is_closed ≡ true)

try_send-IsClosedAt :
    (heap heap' : Heap) (j ch : ℕ) (ev : Event)
    → try_send heap j ev ≡ some heap'
    → IsClosedAt heap ch
    → IsClosedAt heap' ch
unfolding try_send
try_send-IsClosedAt heap heap' j ch ev h (c, there, shut) = elim (Option-cases (get heap j)) [
  | inl e ↦ absurd (ground arith)
  | inr (d, e) ↦ (c, ground (arith, get-put heap j ch (offer ev d)), shut)
]

try_send_closed :
    (heap : Heap) (ch : ℕ) (ev : Event) → IsClosedAt heap ch → try_send heap ch ev ≡ none
unfolding try_send
try_send_closed heap ch ev (c, there, shut) = ground arith

send_closed :
    (subs : GoMap ℕ ℕ) (heap : Heap) (id ch : ℕ) (ev : Event)
    → get subs id ≡ some ch
    → IsClosedAt heap ch
    → send_all (map (λ entry. entry.1) subs) ev heap ≡ none
unfolding get send_all
send_closed [] heap id ch ev h shut = absurd (ground arith)
send_closed ((j, k) ∷ subs) heap id ch ev h shut = elim (ℕ_discrete j id) [
  | yes here ↦ ground (arith, try_send_closed heap ch ev shut)
  | no ne ↦ elim (Option-cases (try_send heap k ev)) [
    | inl e ↦ rw (e, send_all) refl
    | inr (heap', e) ↦
        rw (e, send_all)
          (send_closed subs heap' id ch ev (ground arith)
            (try_send-IsClosedAt heap heap' k ch ev e shut))
  ]
]

-- Whoever is subscribed: if `Unsubscribe` runs after a broadcast has copied the receivers and
-- before it has sent, then the sends panic.
pub broadcast_unsubscribe_panics :
    (h : Hub) (id ch : ℕ) (ev : Event)
    → IsValid h
    → get h.subs id ≡ some ch
    → send_all (receivers h) ev (unsubscribe h id).heap ≡ none
unfolding receivers
broadcast_unsubscribe_panics h id ch ev v e =
    let (own, _) = own_channel h.subs h.heap id ch v.open_channels e in
    let (c, there, after) = unsubscribe_lem h id ch v e in
    rw after (
      send_closed h.subs _ id ch ev e (
        record c { is_closed = true },
        ground (arith, own, get-put h.heap id ch (record c { is_closed = true })),
        refl,
      ))
