-- ===== src/Analytics/Streaming/Delivery.antt =====
-- Who receives a stream event.
use gamifykit.Prelude.{ℕ, zero, suc, ◌≡◌, refl, arith, Bool, ◌==◌, if◌then◌else◌, List, [], ◌∷◌}
use gamifykit.Prelude.Text.{text_key}
use gamifykit.Analytics.Streaming.{
  StreamEvent, StreamSubscriber, StreamPublisher, Heap, set_at, on_stream_event, receivers, deliver,
  publish_event,
}

-- How often an address stands in a list.
abbrev pub times : ℕ → List ℕ → ℕ
times a [] = 0
times a (p ∷ ps) = if a == p then suc (times a ps) else times a ps

abbrev pub received : ℕ → Bool → StreamEvent → StreamSubscriber → StreamSubscriber
received zero pick event sub = sub
received (suc n) pick event sub = received n pick event (on_stream_event pick event sub)

deliver-received :
    (pick : ℕ → Bool) (event : StreamEvent) (ps : List ℕ) (heap : Heap) (a : ℕ)
    → deliver pick event ps heap a ≡ received (times a ps) (pick a) event (heap a)
unfolding deliver
deliver-received pick event [] heap a = refl
deliver-received pick event (p ∷ ps) heap a = ground (
  arith,
  deliver-received pick event ps (set_at heap p (on_stream_event (pick p) event (heap p))) a,
)

-- Every subscriber receives a published event once for each name under which it is subscribed, and
-- whoever is not subscribed stays as it was.
pub publish_event-received :
    (pick : ℕ → Bool) (sp : StreamPublisher) (event : StreamEvent) (a : ℕ)
    → (publish_event pick sp event).heap a
      ≡ received (times a (receivers sp.subscribers)) (pick a) event (sp.heap a)
unfolding publish_event
publish_event-received pick sp event a =
    deliver-received pick event (receivers sp.subscribers) sp.heap a
