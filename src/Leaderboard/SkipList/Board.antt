-- ===== src/Leaderboard/SkipList/Board.antt =====
-- The board that a skip list stands for: its entries, the best first.
pub mod Cuts
pub mod Removal
pub mod Splicing
pub mod Insertion
use gamifykit.Prelude.{
  ℕ, zero, suc, ◌+◌, ◌<◌, ◌≤◌, ◌≡◌, ◌≢◌, refl, ap, ◌∙◌, arith, Bool-cases, true, false, inl, inr,
  List, [], ◌∷◌, ◌++◌, map, Option, none, some, ltb, leb, ite, if◌then◌else◌, length, take, ◌==◌,
}
use gamifykit.Prelude.Int.{ℤ, pos, negsuc}
use gamifykit.Prelude.GoMap.{get}
use gamifykit.Prelude.Text.{Text-discrete, text_key}
use gamifykit.Core.{UserId}
use gamifykit.Leaderboard.Entry.{Entry, less}
use gamifykit.Leaderboard.SkipList.{
  Ptr, Heap, SkipList, head, max_level, new_skip_list, collect, top_n, get_entry,
}
use gamifykit.Leaderboard.SkipList.Chains.{Addrs, All, Chain, Ranked, tall, All-tall}
use gamifykit.Leaderboard.SkipList.Linking.{Distinct, Ranked-Distinct, Distinct-tall}

abbrev pub entries : Heap → Addrs → List Entry
entries h xs = map (λ a. (h a).e) xs

abbrev pub find_user : Heap → UserId → Addrs → Option Ptr
find_user h u [] = none
find_user h u (a ∷ xs) = ite (Text-discrete (h a).e.user u) (some a) (find_user h u xs)

-- No user has two nodes.
abbrev pub OneEach : Heap → Addrs → Type 0
OneEach h [] = Unit
OneEach h (a ∷ xs) = All (λ b. (h a).e.user ≢ (h b).e.user) xs × OneEach h xs

-- The list `l` is the board of `s`: `order` are the nodes in the order of level 0, and `ht` says of
-- how many levels each is.
pub record Represents (s : SkipList) (l : List Entry) : Type 0 where
  pub order : Addrs
  pub ht : Ptr → ℕ
  pub shown : l ≡ entries s.heap order
  pub chains : (i : ℕ) → Chain s.heap i head (tall ht i order)
  pub ranked : Ranked s.heap order
  pub one_each : OneEach s.heap order
  pub heights : All (λ a. (1 ≤ ht a) × (ht a ≤ s.lvl)) order
  pub addresses : All (λ a. (0 < a) × (a < s.fresh)) order
  pub room : length order < s.fresh
  pub lvl_low : 1 ≤ s.lvl
  pub lvl_high : s.lvl ≤ max_level
  pub index : (u : UserId) → get s.by_user u ≡ find_user s.heap u order

-- Operations on boards, which those of the skip list implement.
abbrev pub find_entry : UserId → List Entry → Option Entry
find_entry u [] = none
find_entry u (x ∷ l) = ite (Text-discrete x.user u) (some x) (find_entry u l)

abbrev pub drop_user : UserId → List Entry → List Entry
drop_user u [] = []
drop_user u (x ∷ l) = ite (Text-discrete x.user u) l (x ∷ drop_user u l)

abbrev pub place : Entry → List Entry → List Entry
place e [] = e ∷ []
place e (x ∷ l) = if less x e then x ∷ place e l else e ∷ x ∷ l

-- Each entry comes before all behind it.
abbrev pub Before : Entry → List Entry → Type 0
Before x [] = Unit
Before x (y ∷ l) = (less x y ≡ true) × Before x l

abbrev pub IsRanked : List Entry → Type 0
IsRanked [] = Unit
IsRanked (x ∷ l) = Before x l × IsRanked l

pub new_skip_list-Represents : Represents new_skip_list []
unfolding new_skip_list get
new_skip_list-Represents = record {
  order = [];
  ht = λ a. 1;
  shown = refl;
  chains = λ i. refl;
  ranked = tt;
  one_each = tt;
  heights = tt;
  addresses = tt;
  room = omega arith;
  lvl_low = omega arith;
  lvl_high = omega arith;
  index = λ u. refl;
}

pub all_tall :
    (ht : Ptr → ℕ) (n : ℕ) (xs : Addrs) → All (λ a. (1 ≤ ht a) × (ht a ≤ n)) xs → tall ht 0 xs ≡ xs
all_tall ht n [] h = refl
all_tall ht n (a ∷ xs) h = ground (arith, all_tall ht n xs h.1)

-- The head and the nodes of a level are all distinct.
pub level-Distinct :
    {s : SkipList} {l : List Entry} (r : Represents s l) (i : ℕ)
    → Distinct (head ∷ tall r.ht i r.order)
level-Distinct {s} r i = (
  All-tall _ r.ht i r.order (nonzero s.fresh r.order r.addresses),
  Distinct-tall r.ht i r.order (Ranked-Distinct s.heap r.order r.ranked),
)
  where
    nonzero : (n : ℕ) (xs : Addrs) → All (λ a. (0 < a) × (a < n)) xs → All (λ a. head ≢ a) xs
    nonzero n [] h = tt
    nonzero n (a ∷ xs) h = (λ e. omega arith, nonzero n xs h.1)

pub entries-IsRanked : (h : Heap) (xs : Addrs) → Ranked h xs → IsRanked (entries h xs)
entries-IsRanked h [] r = tt
entries-IsRanked h (a ∷ xs) r = (before xs r.0, entries-IsRanked h xs r.1)
  where
    before :
        (xs : Addrs) → All (λ b. less (h a).e (h b).e ≡ true) xs → Before (h a).e (entries h xs)
    before [] k = tt
    before (b ∷ xs) k = (k.0, before xs k.1)

find_entry-entries :
    (h : Heap) (u : UserId) (xs : Addrs)
    → find_entry u (entries h xs)
      ≡ (elim (find_user h u xs) [ none ↦ none | some a ↦ some (h a).e ])
find_entry-entries h u [] = refl
find_entry-entries h u (a ∷ xs) = ground (arith, find_entry-entries h u xs)

pub get_entry-find_entry :
    {s : SkipList} {l : List Entry} → Represents s l → (u : UserId) → get_entry s u ≡ find_entry u l
unfolding get_entry
get_entry-find_entry {s} r u =
    ground (arith, r.shown, r.index u, find_entry-entries s.heap u r.order)

collect-take :
    (n : ℕ) (h : Heap) (p : Ptr) (xs : Addrs)
    → Chain h 0 p xs
    → collect n h ((h p).next 0) ≡ take n (entries h xs)
unfolding collect
collect-take zero h p xs c = refl
collect-take (suc n) h p [] c = ground arith
collect-take (suc n) h p (a ∷ xs) c = ground (arith, collect-take n h a xs c.1)

pub top_n-take :
    {s : SkipList} {l : List Entry} → Represents s l → (n : ℕ) → top_n s (pos n) ≡ take n l
unfolding top_n
top_n-take {s} r n =
    let level0 = rw (all_tall r.ht s.lvl r.order r.heights) at (r.chains 0) in
    rw r.shown (collect-take n s.heap head r.order level0)
