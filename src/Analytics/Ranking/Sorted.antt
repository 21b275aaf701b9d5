-- ===== src/Analytics/Ranking/Sorted.antt =====
-- What the report of `GetTopMetrics` lists.
use mathlib.Core.List.{Perm, append-nil}
use mathlib.Core.List.Perm
use gamifykit.Prelude.{
  ℕ, zero, suc, ◌≤◌, ◌<◌, ◌≡◌, refl, arith, List, [], ◌∷◌, ◌++◌, some, Bool-cases, inl, inr, length,
  take,
}
use gamifykit.Prelude.Int.{ℤ, pos, ◌≤ℤ◌, ltb_ℤ}
use gamifykit.Core.{Metric}
use gamifykit.Analytics.Metrics.{ComprehensiveMetrics}
use gamifykit.Analytics.Ranking.{
  winner, loser, exchange, sort_rounds, sort_by_points, truncate, TopMetrics, get_top_metrics,
  sum_map_values,
}

abbrev pub AllBelow : Metric × ℤ → List (Metric × ℤ) → Type 0
AllBelow x [] = Unit
AllBelow x (y ∷ ys) = (y.1 ≤ℤ x.1) × AllBelow x ys

-- Each entry has at least the points of every entry behind it.
abbrev pub IsRanked : List (Metric × ℤ) → Type 0
IsRanked [] = Unit
IsRanked (x ∷ xs) = AllBelow x xs × IsRanked xs

exchange-AllBelow :
    (b x : Metric × ℤ) (xs : List (Metric × ℤ))
    → AllBelow b (x ∷ xs)
    → AllBelow b ((exchange x xs).0 ∷ (exchange x xs).1)
unfolding exchange
exchange-AllBelow b x [] h = h
exchange-AllBelow b x (y ∷ ys) h =
    let (first, rest) = exchange-AllBelow b (winner x y) ys (ground arith) in
    (first, (ground arith, rest))

exchange_best :
    (x : Metric × ℤ) (xs : List (Metric × ℤ))
    → (x.1 ≤ℤ (exchange x xs).0.1) × AllBelow (exchange x xs).0 (exchange x xs).1
unfolding exchange
exchange_best x [] = (omega arith, tt)
exchange_best x (y ∷ ys) =
    let (up, rest) = exchange_best (winner x y) ys in (ground arith, (ground arith, rest))

contest-Perm :
    (x y : Metric × ℤ) (ys : List (Metric × ℤ)) → Perm (loser x y ∷ winner x y ∷ ys) (x ∷ y ∷ ys)
contest-Perm x y ys = elim (Bool-cases (ltb_ℤ x.1 y.1)) [
  | inl h ↦ rw h (Perm.refl (x ∷ y ∷ ys))
  | inr h ↦ rw h (Perm.swap x y ys)
]

exchange-Perm :
    (x : Metric × ℤ) (xs : List (Metric × ℤ))
    → Perm ((exchange x xs).0 ∷ (exchange x xs).1) (x ∷ xs)
unfolding exchange
exchange-Perm x [] = Perm.refl (x ∷ [])
exchange-Perm x (y ∷ ys) =
    let inner = exchange-Perm (winner x y) ys in
    Perm.trans (Perm.swap _ _ _) (Perm.trans (Perm.cons (loser x y) inner) (contest-Perm x y ys))

sort_rounds-AllBelow :
    (n : ℕ) (b : Metric × ℤ) (l : List (Metric × ℤ)) → AllBelow b l → AllBelow b (sort_rounds n l)
unfolding sort_rounds
sort_rounds-AllBelow zero b l h = h
sort_rounds-AllBelow (suc n) b [] h = h
sort_rounds-AllBelow (suc n) b (x ∷ xs) h =
    let (first, rest) = exchange-AllBelow b x xs h in
    (first, sort_rounds-AllBelow n b (exchange x xs).1 rest)

exchange-length : (x : Metric × ℤ) (xs : List (Metric × ℤ)) → length (exchange x xs).1 ≡ length xs
unfolding exchange
exchange-length x [] = refl
exchange-length x (y ∷ ys) = omega (arith, exchange-length (winner x y) ys)

sort_rounds-IsRanked : (n : ℕ) (l : List (Metric × ℤ)) → length l ≤ n → IsRanked (sort_rounds n l)
unfolding sort_rounds
sort_rounds-IsRanked zero [] h = tt
sort_rounds-IsRanked zero (x ∷ xs) h = absurd (omega arith)
sort_rounds-IsRanked (suc n) [] h = tt
sort_rounds-IsRanked (suc n) (x ∷ xs) h = (
  sort_rounds-AllBelow n (exchange x xs).0 (exchange x xs).1 (exchange_best x xs).1,
  sort_rounds-IsRanked n (exchange x xs).1 (omega (arith, exchange-length x xs)),
)

sort_rounds-Perm : (n : ℕ) (l : List (Metric × ℤ)) → Perm (sort_rounds n l) l
unfolding sort_rounds
sort_rounds-Perm zero l = Perm.refl l
sort_rounds-Perm (suc n) [] = Perm.refl []
sort_rounds-Perm (suc n) (x ∷ xs) =
    Perm.trans (Perm.cons (exchange x xs).0 (sort_rounds-Perm n (exchange x xs).1))
      (exchange-Perm x xs)

-- A list is what `take n` leaves of it and a rest, which is empty where less than `n` is left.
take_split :
    (n : ℕ) (l : List (Metric × ℤ))
    → (rest : List (Metric × ℤ)) × (take n l ++ rest ≡ l)
      × (length (take n l) ≤ n)
      × (length (take n l) < n → rest ≡ [])
take_split zero l = (l, refl, omega arith, λ h. absurd (omega arith))
take_split (suc n) [] = ([], refl, omega arith, λ h. refl)
take_split (suc n) (x ∷ l) =
    let (rest, e, short, none_left) = take_split n l in
    (rest, ground arith, omega arith, λ h. none_left (omega arith))

truncate_split :
    (n : ℕ) (l : List (Metric × ℤ))
    → (top : List (Metric × ℤ)) × (rest : List (Metric × ℤ)) × (truncate (pos n) l ≡ some top)
      × (top ++ rest ≡ l)
      × (length top ≤ n)
      × (length top < n → rest ≡ [])
unfolding truncate
truncate_split n l = elim (Bool-cases (ltb_ℤ (pos n) (pos (length l)))) [
  | inl h ↦
      let (rest, e, short, full) = take_split n l in (take n l, rest, ground arith, e, short, full)
  | inr h ↦ (l, [], ground arith, append-nil l, ground arith, λ _. refl)
]

-- For a limit that is not negative the report lists the metrics with the most points: the listed
-- entries, the best first, followed by those left out, are the entries of the table in falling
-- order of points; no more than the limit are listed, and less only if none is left out.
pub get_top_metrics-IsRanked :
    (cm : ComprehensiveMetrics) (n : ℕ)
    → (r : TopMetrics) × (rest : List (Metric × ℤ)) × (get_top_metrics cm (pos n) ≡ some r)
      × Perm (r.top_metrics_by_points ++ rest) cm.points_awarded_by_metric
      × IsRanked (r.top_metrics_by_points ++ rest)
      × (length r.top_metrics_by_points ≤ n)
      × (length r.top_metrics_by_points < n → rest ≡ [])
unfolding get_top_metrics sort_by_points
get_top_metrics-IsRanked cm n =
    let l = cm.points_awarded_by_metric in
    let (top, rest, e, split, short, full) = truncate_split n (sort_by_points l) in
    (
      record {
        top_metrics_by_points = top;
        total_points_awarded = sum_map_values l;
        total_badges_awarded = sum_map_values cm.badges_awarded_by_type;
      },
      rest,
      rw (e, get_top_metrics) refl,
      rw split (sort_rounds-Perm (length l) l),
      rw split (sort_rounds-IsRanked (length l) l (omega arith)),
      short,
      full,
    )
