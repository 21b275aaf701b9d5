-- ===== src/Leaderboard/SkipList/Search.antt =====
-- Where the search of the skip list ends: at every level, the last node before the entry.
use gamifykit.Prelude.{
  ℕ, zero, suc, ◌<◌, ◌≤◌, ◌≡◌, ◌⊎◌, inl, inr, refl, ap, ◌∙◌, arith, Bool-cases, true, [], ◌∷◌, ◌++◌,
  some, ltb, length,
}
use gamifykit.Leaderboard.Entry.{Entry}
use gamifykit.Leaderboard.SkipList.{Ptr, Heap, head, walk, Preds, set_pred, search_down}
use gamifykit.Leaderboard.SkipList.Chains.{
  Addrs, All, Chain, tall, last_of, Below, NotBelow, All-tall, tall-append, length-tall,
  walk-last_of, Chain-from,
}

-- `rest` is what is behind `q` in the list of `p` and `zs`.
abbrev pub Suffix : Ptr → Addrs → Ptr → Addrs → Type 0
Suffix p zs q rest = ((p ≡ q) × (zs ≡ rest)) ⊎ ((front : Addrs) × (zs ≡ front ++ q ∷ rest))

Suffix-cons : (p a q : Ptr) (zs rest : Addrs) → Suffix a zs q rest → Suffix p (a ∷ zs) q rest
Suffix-cons p a q zs rest (inl (e, k)) = inr ([], ground arith)
Suffix-cons p a q zs rest (inr (front, k)) = inr (a ∷ front, ground arith)

Suffix-last_of : (p q : Ptr) (zs rest : Addrs) → Suffix p zs q rest → last_of q rest ≡ last_of p zs
Suffix-last_of p q zs rest (inl (e, k)) = ground arith
Suffix-last_of p q zs rest (inr (front, k)) = rw k (behind p front)
  where
    behind : (p : Ptr) (front : Addrs) → last_of q rest ≡ last_of p (front ++ q ∷ rest)
    behind p [] = refl
    behind p (a ∷ front) = behind a front

Suffix-Chain :
    (h : Heap) (i : ℕ) (p q : Ptr) (zs rest ys : Addrs)
    → Suffix p zs q rest
    → Chain h i p (zs ++ ys)
    → Chain h i q (rest ++ ys)
Suffix-Chain h i p q zs rest ys (inl (e, k)) c = rw (← e, ← k) c
Suffix-Chain h i p q zs rest ys (inr (front, k)) c =
    Chain-from h i p q front (rest ++ ys) (rw (← assoc front, ← k) c)
  where
    assoc : (front : Addrs) → (front ++ q ∷ rest) ++ ys ≡ front ++ q ∷ (rest ++ ys)
    assoc [] = refl
    assoc (a ∷ front) = ap (λ l. a ∷ l) (assoc front)

Suffix-All :
    (P : Ptr → Type 0) (p q : Ptr) (zs rest : Addrs) → Suffix p zs q rest → All P zs → All P rest
Suffix-All P p q zs rest (inl (e, k)) h = rw (← k) h
Suffix-All P p q zs rest (inr (front, k)) h = behind front (rw k at h)
  where
    behind : (front : Addrs) → All P (front ++ q ∷ rest) → All P rest
    behind [] g = g.1
    behind (a ∷ front) g = behind front g.1

Suffix-length : (p q : Ptr) (zs rest : Addrs) → Suffix p zs q rest → length rest ≤ length zs
Suffix-length p q zs rest (inl (e, k)) = rw k (omega arith)
Suffix-length p q zs rest (inr (front, k)) = rw k (behind front)
  where
    behind : (front : Addrs) → length rest ≤ length (front ++ q ∷ rest)
    behind [] = omega arith
    behind (a ∷ front) = omega (arith, behind front)

-- The last node of a level stands in the level below.
level_below :
    (ht : Ptr → ℕ) (i : ℕ) (p : Ptr) (xs : Addrs)
    → (rest : Addrs) × Suffix p (tall ht i xs) (last_of p (tall ht (suc i) xs)) rest
level_below ht i p [] = ([], inl (refl, refl))
level_below ht i p (a ∷ xs) = elim (Bool-cases (ltb (suc i) (ht a))) [
  | inl t ↦
      let t' : ltb i (ht a) ≡ true = ground arith in
      let (rest, s) = level_below ht i a xs in rw (t, t') (rest, Suffix-cons p a _ _ rest s)
  | inr t ↦ elim (Bool-cases (ltb i (ht a))) [
    | inl t' ↦ rw (t, t') (gap (tall ht (suc i) xs) (level_below ht i a xs))
    | inr t' ↦ rw (t, t') (level_below ht i p xs)
  ]
]
  where
    gap :
        (cs : Addrs)
        → ((rest : Addrs) × Suffix a (tall ht i xs) (last_of a cs) rest)
        → (rest : Addrs) × Suffix p (a ∷ tall ht i xs) (last_of p cs) rest
    gap [] _ = (a ∷ tall ht i xs, inl (refl, refl))
    gap (c ∷ cs) (rest, s) = (rest, Suffix-cons p a _ _ rest s)

module _ (h : Heap) (e : Entry) (ht : Ptr → ℕ) (lo hi : Addrs)
    (chains : (i : ℕ) → Chain h i head (tall ht i (lo ++ hi))) (below : Below h e lo)
    (above : NotBelow h e hi) where
  -- `cur` is a node of the level from which the search goes on.
  abbrev Starts : ℕ → Ptr → Type 0
  Starts zero cur = Unit
  Starts (suc i) cur = (rest : Addrs) × Suffix head (tall ht i lo) cur rest

  walk_level :
      (fuel i : ℕ) (cur : Ptr) (rest : Addrs)
      → length lo < fuel
      → Suffix head (tall ht i lo) cur rest
      → walk fuel h i e cur ≡ some (last_of head (tall ht i lo))
  walk_level fuel i cur rest f s =
      let chain : Chain h i head (tall ht i lo ++ tall ht i hi) =
        rw (← tall-append ht i lo hi) (chains i) in
      let walked =
        walk-last_of fuel h i e cur rest (tall ht i hi)
          (Suffix-Chain h i head cur (tall ht i lo) rest (tall ht i hi) s chain)
          (Suffix-All _ head cur (tall ht i lo) rest s (All-tall _ ht i lo below))
          (All-tall _ ht i hi above)
          (omega (arith, Suffix-length head cur (tall ht i lo) rest s, length-tall ht i lo)) in
      walked ∙ ap (λ p. some p) (Suffix-last_of head cur (tall ht i lo) rest s)

  abbrev pub Found : ℕ → Preds → Preds → Type 0
  Found n before after =
      ((j : ℕ) → j < n → after j ≡ some (last_of head (tall ht j lo)))
      × ((j : ℕ) → n ≤ j → after j ≡ before j)

  search_from :
      (n fuel : ℕ) (cur : Ptr) (before : Preds)
      → length lo < fuel
      → Starts n cur
      → (after : Preds) × (search_down n fuel h e cur before ≡ some after) × Found n before after
  unfolding search_down
  search_from zero fuel cur before f s = (before, refl, (λ j k. absurd (omega arith), λ j k. refl))
  search_from (suc i) fuel cur before f (rest, s) =
      let p = last_of head (tall ht i lo) in
      let found = walk_level fuel i cur rest f s in
      let (after, e', (low, high)) = search_from i fuel p (set_pred before i p) f (starts i) in
      (
        after,
        rw (found, search_down) e',
        (λ j k. ground (arith, low j, high j), λ j k. ground (arith, high j)),
      )
    where
      starts : (i : ℕ) → Starts i (last_of head (tall ht i lo))
      starts zero = tt
      starts (suc i) = level_below ht i head lo

  -- The search from the head.
  pub search_head :
      (n fuel : ℕ) (before : Preds)
      → length lo < fuel
      → (after : Preds) × (search_down n fuel h e head before ≡ some after) × Found n before after
  search_head n fuel before f = search_from n fuel head before f (starts n)
    where
      starts : (n : ℕ) → Starts n head
      starts zero = tt
      starts (suc i) = (tall ht i lo, inl (refl, refl))
