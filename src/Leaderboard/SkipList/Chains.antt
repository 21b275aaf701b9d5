-- ===== src/Leaderboard/SkipList/Chains.antt =====
-- The levels of the skip list as lists of addresses.
use gamifykit.Prelude.{
  ℕ, zero, suc, ◌<◌, ◌≤◌, ◌≡◌, inl, inr, refl, ap, arith, Bool-cases, true, false, List, [], ◌∷◌,
  ◌++◌, Option, none, some, ltb, if◌then◌else◌, length,
}
use gamifykit.Leaderboard.Entry.{Entry, less, less_trans}
use gamifykit.Leaderboard.SkipList.{Ptr, Heap, walk}

abbrev pub Addrs : Type 0
Addrs = List Ptr

abbrev pub All : (Ptr → Type 0) → Addrs → Type 0
All P [] = Unit
All P (a ∷ xs) = P a × All P xs

-- From `p` the pointers of level `i` lead through exactly `xs` to nil.
abbrev pub Chain : Heap → ℕ → Ptr → Addrs → Type 0
Chain h i p [] = (h p).next i ≡ none
Chain h i p (a ∷ xs) = ((h p).next i ≡ some a) × Chain h i a xs

-- The nodes of more than `i` levels.
abbrev pub tall : (Ptr → ℕ) → ℕ → Addrs → Addrs
tall ht i [] = []
tall ht i (a ∷ xs) = if ltb i (ht a) then a ∷ tall ht i xs else tall ht i xs

-- The last of `p` and the addresses behind it.
abbrev pub last_of : Ptr → Addrs → Ptr
last_of p [] = p
last_of p (a ∷ xs) = last_of a xs

abbrev pub Below : Heap → Entry → Addrs → Type 0
Below h e xs = All (λ a. less (h a).e e ≡ true) xs

abbrev pub NotBelow : Heap → Entry → Addrs → Type 0
NotBelow h e xs = All (λ a. less (h a).e e ≡ false) xs

-- Each entry comes before every entry behind it.
abbrev pub Ranked : Heap → Addrs → Type 0
Ranked h [] = Unit
Ranked h (a ∷ xs) = All (λ b. less (h a).e (h b).e ≡ true) xs × Ranked h xs

pub All-append : (P : Ptr → Type 0) (xs ys : Addrs) → All P xs → All P ys → All P (xs ++ ys)
All-append P [] ys h k = k
All-append P (a ∷ xs) ys h k = (h.0, All-append P xs ys h.1 k)

pub All-front : (P : Ptr → Type 0) (xs ys : Addrs) → All P (xs ++ ys) → All P xs
All-front P [] ys h = tt
All-front P (a ∷ xs) ys h = (h.0, All-front P xs ys h.1)

pub All-back : (P : Ptr → Type 0) (xs ys : Addrs) → All P (xs ++ ys) → All P ys
All-back P [] ys h = h
All-back P (a ∷ xs) ys h = All-back P xs ys h.1

pub All-map : (P Q : Ptr → Type 0) (xs : Addrs) → ((a : Ptr) → P a → Q a) → All P xs → All Q xs
All-map P Q [] f h = tt
All-map P Q (a ∷ xs) f h = (f a h.0, All-map P Q xs f h.1)

pub All-tall :
    (P : Ptr → Type 0) (ht : Ptr → ℕ) (i : ℕ) (xs : Addrs) → All P xs → All P (tall ht i xs)
All-tall P ht i [] h = tt
All-tall P ht i (a ∷ xs) h = elim (Bool-cases (ltb i (ht a))) [
  | inl t ↦ rw t (h.0, All-tall P ht i xs h.1)
  | inr t ↦ rw t (All-tall P ht i xs h.1)
]

pub tall-append :
    (ht : Ptr → ℕ) (i : ℕ) (xs ys : Addrs) → tall ht i (xs ++ ys) ≡ tall ht i xs ++ tall ht i ys
tall-append ht i [] ys = refl
tall-append ht i (a ∷ xs) ys = ground (arith, tall-append ht i xs ys)

pub length-tall : (ht : Ptr → ℕ) (i : ℕ) (xs : Addrs) → length (tall ht i xs) ≤ length xs
length-tall ht i [] = omega arith
length-tall ht i (a ∷ xs) = ground (arith, length-tall ht i xs)

-- The walk ends at the last address whose entry comes before `e`.
pub walk-last_of :
    (fuel : ℕ) (h : Heap) (i : ℕ) (e : Entry) (p : Ptr) (xs ys : Addrs)
    → Chain h i p (xs ++ ys)
    → Below h e xs
    → NotBelow h e ys
    → length xs < fuel
    → walk fuel h i e p ≡ some (last_of p xs)
unfolding walk
walk-last_of zero h i e p xs ys c lo hi f = absurd (omega arith)
walk-last_of (suc fuel) h i e p [] [] c lo hi f = ground arith
walk-last_of (suc fuel) h i e p [] (b ∷ ys) c lo hi f = ground arith
walk-last_of (suc fuel) h i e p (a ∷ xs) ys c lo hi f =
    ground (arith, walk-last_of fuel h i e a xs ys c.1 lo.1 hi (omega arith))

-- A chain from the middle on.
pub Chain-from :
    (h : Heap) (i : ℕ) (p q : Ptr) (xs ys : Addrs) → Chain h i p (xs ++ q ∷ ys) → Chain h i q ys
Chain-from h i p q [] ys c = c.1
Chain-from h i p q (a ∷ xs) ys c = Chain-from h i a q xs ys c.1

-- A chain is spared by a change of the heap that spares its nodes at its level.
pub Chain-frame :
    (h g : Heap) (i : ℕ) (p : Ptr) (xs : Addrs)
    → (g p).next i ≡ (h p).next i
    → All (λ a. (g a).next i ≡ (h a).next i) xs
    → Chain h i p xs
    → Chain g i p xs
Chain-frame h g i p [] e es c = ground arith
Chain-frame h g i p (a ∷ xs) e es c = (ground (arith, c.0), Chain-frame h g i a xs es.0 es.1 c.1)

pub Chain-next :
    (h : Heap) (i : ℕ) (p a : Ptr) (xs : Addrs) → Chain h i p (a ∷ xs) → (h p).next i ≡ some a
Chain-next h i p a xs c = c.0

-- The next pointer behind the first part of a chain.
abbrev pub first_of : Addrs → Option Ptr
first_of [] = none
first_of (a ∷ xs) = some a

pub next-last_of :
    (h : Heap) (i : ℕ) (p : Ptr) (xs ys : Addrs)
    → Chain h i p (xs ++ ys)
    → (h (last_of p xs)).next i ≡ first_of ys
next-last_of h i p [] [] c = c
next-last_of h i p [] (b ∷ ys) c = c.0
next-last_of h i p (a ∷ xs) ys c = next-last_of h i a xs ys c.1

pub Chain-last :
    (h : Heap) (i : ℕ) (p : Ptr) (xs ys : Addrs)
    → Chain h i p (xs ++ ys)
    → Chain h i (last_of p xs) ys
Chain-last h i p [] ys c = c
Chain-last h i p (a ∷ xs) ys c = Chain-last h i a xs ys c.1

-- A ranked list is cut by an entry in two: what comes before it, and what does not.
pub cut :
    (h : Heap) (e : Entry) (xs : Addrs)
    → Ranked h xs
    → (lo : Addrs) × (hi : Addrs) × (xs ≡ lo ++ hi) × Below h e lo × NotBelow h e hi
cut h e [] r = ([], [], refl, tt, tt)
cut h e (a ∷ xs) r = elim (Bool-cases (less (h a).e e)) [
  | inl b ↦
      let (lo, hi, split, below, above) = cut h e xs r.1 in
      (a ∷ lo, hi, ap (λ l. a ∷ l) split, (b, below), above)
  | inr b ↦ (
    [],
    a ∷ xs,
    refl,
    tt,
    (b, All-map _ _ xs (λ c k. ground (arith, less_trans (h a).e (h c).e e)) r.0),
  )
]
