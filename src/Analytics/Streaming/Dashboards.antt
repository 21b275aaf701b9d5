-- ===== src/Analytics/Streaming/Dashboards.antt =====
-- The recent events of a dashboard.
use gamifykit.Prelude.{
  ℕ, zero, suc, ◌-◌, ◌≤◌, ◌≡◌, inl, inr, refl, arith, Bool-cases, ltb, List, [], ◌∷◌, ◌++◌, length,
  length-append,
}
use gamifykit.Analytics.Streaming.{
  StreamEvent, DashboardManager, tail_of, dashboard_on_stream_event,
}

abbrev pub drop : ℕ → List StreamEvent → List StreamEvent
drop zero xs = xs
drop (suc n) [] = []
drop (suc n) (x ∷ xs) = drop n xs

-- The last `n` of a list, or all of it.
abbrev pub last_events : ℕ → List StreamEvent → List StreamEvent
last_events n xs = drop (length xs - n) xs

tail_of-drop :
    (k : ℕ) (xs : List StreamEvent) (e : StreamEvent)
    → k ≤ length xs
    → tail_of (drop k xs ++ e ∷ []) ≡ drop (suc k) (xs ++ e ∷ [])
tail_of-drop zero [] e l = refl
tail_of-drop zero (x ∷ xs) e l = refl
tail_of-drop (suc k) [] e l = absurd (omega arith)
tail_of-drop (suc k) (x ∷ xs) e l = tail_of-drop k xs e (omega arith)

length-drop : (k : ℕ) (xs : List StreamEvent) → length (drop k xs) ≡ length xs - k
length-drop zero xs = omega arith
length-drop (suc k) [] = omega arith
length-drop (suc k) (x ∷ xs) = omega (arith, length-drop k xs)

pub drop_zero : (xs : List StreamEvent) (k : ℕ) → k ≡ 0 → drop k xs ≡ xs
drop_zero xs k e = rw e refl

-- A dashboard that shows the last events of a list shows those of the list with a new event.
pub dashboard_on_stream_event-last_events :
    (dm : DashboardManager) (seen : List StreamEvent) (e : StreamEvent)
    → dm.recent_events ≡ last_events dm.max_events seen
    → (dashboard_on_stream_event e dm).recent_events ≡ last_events dm.max_events (seen ++ e ∷ [])
unfolding dashboard_on_stream_event
dashboard_on_stream_event-last_events dm seen e h =
    let n = dm.max_events in
    let k = length seen - n in
    let shown = length-drop k seen in
    let grown = length-append (drop k seen) (e ∷ []) in
    let whole = length-append seen (e ∷ []) in
    elim (Bool-cases (ltb (length seen) n)) [
      | inl t ↦
          let same = drop_zero seen k (ground arith) in
          let same' =
            drop_zero (seen ++ e ∷ []) (length (seen ++ e ∷ []) - n) (ground (arith, whole)) in
          ground (arith, h, same, same', grown, whole)
      | inr t ↦
          let next : length (seen ++ e ∷ []) - n ≡ suc k = ground (arith, whole) in
          ground (arith, h, shown, grown, next, tail_of-drop k seen e (omega arith))
    ]
