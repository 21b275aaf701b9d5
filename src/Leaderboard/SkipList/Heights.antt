-- ===== src/Leaderboard/SkipList/Heights.antt =====
-- The heights of the nodes: the random levels, the levels that `Update` adds, and those that
-- `removeLocked` gives up.
use gamifykit.Prelude.{
  ℕ, zero, suc, ◌+◌, ◌/◌, ◌≤◌, ◌≡◌, ◌≢◌, refl, arith, Bool-cases, Option-cases, inl, inr, [], ◌∷◌,
  none, some, ltb, leb, ◌==◌, ◌&&◌, if◌then◌else◌,
}
use gamifykit.Leaderboard.SkipList.{
  Ptr, Heap, Preds, Draws, head, max_level, set_pred, raise, random_uint64, level_loop,
  random_level, shrink,
}
use gamifykit.Leaderboard.SkipList.Chains.{Addrs, All, Chain, tall}

Chain-none :
    (h : Heap) (i : ℕ) (p : Ptr) (xs : Addrs) → Chain h i p xs → (h p).next i ≡ none → xs ≡ []
Chain-none h i p [] c e = refl
Chain-none h i p (a ∷ xs) c e = absurd (ground (arith, c.0))

no_taller : (ht : Ptr → ℕ) (i : ℕ) (xs : Addrs) → tall ht i xs ≡ [] → All (λ a. ht a ≤ i) xs
no_taller ht i [] e = tt
no_taller ht i (a ∷ xs) e = elim (Bool-cases (ltb i (ht a))) [
  | inl t ↦ absurd (ground arith)
  | inr t ↦ (ground arith, no_taller ht i xs (ground arith))
]

lower :
    (ht : Ptr → ℕ) (n : ℕ) (xs : Addrs)
    → All (λ a. (1 ≤ ht a) × (ht a ≤ suc n)) xs
    → All (λ a. ht a ≤ n) xs
    → All (λ a. (1 ≤ ht a) × (ht a ≤ n)) xs
lower ht n [] h k = tt
lower ht n (a ∷ xs) h k = ((h.0.0, k.0), lower ht n xs h.1 k.1)

-- Only empty levels are given up.
pub shrink_lem :
    (n : ℕ) (g : Heap) (ht : Ptr → ℕ) (xs : Addrs)
    → 1 ≤ n
    → ((i : ℕ) → Chain g i head (tall ht i xs))
    → All (λ a. (1 ≤ ht a) × (ht a ≤ n)) xs
    → (1 ≤ shrink n g) × (shrink n g ≤ n) × All (λ a. (1 ≤ ht a) × (ht a ≤ shrink n g)) xs
unfolding shrink
shrink_lem zero g ht xs l c h = absurd (omega arith)
shrink_lem (suc zero) g ht xs l c h = (omega arith, omega arith, h)
shrink_lem (suc (suc n)) g ht xs l c h = elim (Option-cases ((g head).next (suc n))) [
  | inl e ↦
      let none_taller =
        no_taller ht (suc n) xs (Chain-none g (suc n) head (tall ht (suc n) xs) (c (suc n)) e) in
      let (low, high, hs) =
        shrink_lem (suc n) g ht xs (omega arith) c (lower ht (suc n) xs h none_taller) in
      rw (e, shrink) (low, omega (arith, high), hs)
  | inr (p, e) ↦ rw (e, shrink) (omega arith, omega arith, h)
]

pub tall_above :
    (ht : Ptr → ℕ) (n j : ℕ) (xs : Addrs)
    → n ≤ j
    → All (λ a. (1 ≤ ht a) × (ht a ≤ n)) xs
    → tall ht j xs ≡ []
tall_above ht n j [] l h = refl
tall_above ht n j (a ∷ xs) l h = ground (arith, h.0.1, tall_above ht n j xs l h.1)

abbrev pub with_height : (Ptr → ℕ) → Ptr → ℕ → Ptr → ℕ
with_height ht p n a = if a == p then n else ht a

pub tall_others :
    (ht : Ptr → ℕ) (p : Ptr) (n i : ℕ) (xs : Addrs)
    → All (λ a. p ≢ a) xs
    → tall (with_height ht p n) i xs ≡ tall ht i xs
tall_others ht p n i [] h = refl
tall_others ht p n i (a ∷ xs) h = ground (arith, h.0, tall_others ht p n i xs h.1)

pub raise_lem :
    (k i : ℕ) (u : Preds) (j : ℕ)
    → raise k i u j ≡ (if leb i j && ltb j (i + k) then some head else u j)
unfolding raise
raise_lem zero i u j = ground arith
raise_lem (suc k) i u j = ground (arith, raise_lem k (i + 1) (set_pred u i head) j)

level_loop_bounds :
    (n lvl bits : ℕ) (ds : Draws)
    → (lvl ≤ (level_loop n lvl bits ds).0) × ((level_loop n lvl bits ds).0 ≤ lvl + n)
unfolding level_loop
level_loop_bounds zero lvl bits ds = (omega arith, omega arith)
level_loop_bounds (suc n) lvl bits ds = elim (Option-cases (random_uint64 ds).0) [
  | inl e ↦ ground (arith, level_loop_bounds n (lvl + 1) (bits / 4) ds)
  | inr (more, e) ↦ ground (
    arith,
    level_loop_bounds n (lvl + 1) (bits / 4) ds,
    level_loop_bounds n (lvl + 1) more (random_uint64 ds).1,
  )
]

-- A random level is between 1 and `maxLevel`, whatever is drawn.
pub random_level_bounds :
    (ds : Draws) → (1 ≤ (random_level ds).0) × ((random_level ds).0 ≤ max_level)
unfolding random_level
random_level_bounds ds = elim (Option-cases (random_uint64 ds).0) [
  | inl e ↦ ground arith
  | inr (bits, e) ↦ ground (arith, level_loop_bounds 15 1 bits (random_uint64 ds).1)
]
