-- ===== src/Tests/HubTests.antt =====
-- The theorems on the hub at concrete inputs.
use gamifykit.Prelude.{ℕ, ℕ_discrete, ◌≡◌, refl, none, some}
use gamifykit.Prelude.GoMap.{get, put, nat_key}
use gamifykit.Prelude.Text.{text}
use gamifykit.Core.Events.{Event, new_badge_awarded}
use gamifykit.Realtime.Hub.{Hub, new_hub, subscribe, unsubscribe, send_all, receivers, broadcast}
use gamifykit.Realtime.Hub.Delivery.{
  IsValid, offered, new_hub-IsValid, broadcast_lem, subscribe-unsubscribe-IsValid,
}
use gamifykit.Realtime.Hub.Race.{broadcast_unsubscribe_panics}

abbrev pub one_client : Hub
one_client = (subscribe new_hub 4).1

abbrev pub badge_event : Event
badge_event = new_badge_awarded 7 (text "alice") (text "streak_7")

one_client-IsValid : IsValid one_client
one_client-IsValid = (subscribe-unsubscribe-IsValid new_hub 4 3 new_hub-IsValid).0

broadcast_lem_example :
    (h' : Hub) × (broadcast one_client badge_event ≡ some h')
    × IsValid h'
    × (h'.subs ≡ one_client.subs)
    × ((id : ℕ) → get h'.heap id ≡ offered one_client.subs badge_event id (get one_client.heap id))
broadcast_lem_example = broadcast_lem one_client badge_event one_client-IsValid

broadcast_unsubscribe_panics_example :
    send_all (receivers one_client) badge_event (unsubscribe one_client 1).heap ≡ none
unfolding subscribe new_hub get put ℕ_discrete
broadcast_unsubscribe_panics_example =
    broadcast_unsubscribe_panics one_client 1 1 badge_event one_client-IsValid refl
