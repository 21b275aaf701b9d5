-- ===== src/Leaderboard/SkipList/Board/Cuts.antt =====
-- A board that is cut at one of its nodes, and a board whose heap changed in the pointers alone.
use gamifykit.Prelude.{suc, ◌≤◌, ◌≡◌, ◌≢◌, refl, ap, arith, [], ◌∷◌, ◌++◌, none, some, ite, length}
use gamifykit.Prelude.Text.{Text-discrete}
use gamifykit.Core.{UserId}
use gamifykit.Leaderboard.Entry.{less_irrefl, less_asym}
use gamifykit.Leaderboard.SkipList.{Ptr, Heap}
use gamifykit.Leaderboard.SkipList.Chains.{Addrs, All, All-map, Ranked, Below, NotBelow}
use gamifykit.Leaderboard.SkipList.Board.{entries, find_user, OneEach, drop_user}

pub All-every : (P : Ptr → Type 0) (xs : Addrs) → ((a : Ptr) → P a) → All P xs
All-every P [] f = tt
All-every P (a ∷ xs) f = (f a, All-every P xs f)

pub All-drop : (P : Ptr → Type 0) (t : Ptr) (B A : Addrs) → All P (B ++ t ∷ A) → All P (B ++ A)
All-drop P t [] A h = h.1
All-drop P t (b ∷ B) A h = (h.0, All-drop P t B A h.1)

pub All-add : (P : Ptr → Type 0) (t : Ptr) (B A : Addrs) → P t → All P (B ++ A) → All P (B ++ t ∷ A)
All-add P t [] A p h = (p, h)
All-add P t (b ∷ B) A p h = (h.0, All-add P t B A p h.1)

pub All-at : (P : Ptr → Type 0) (t : Ptr) (B A : Addrs) → All P (B ++ t ∷ A) → P t
All-at P t [] A h = h.0
All-at P t (b ∷ B) A h = All-at P t B A h.1

pub length_drop : (t : Ptr) (B A : Addrs) → length (B ++ t ∷ A) ≡ suc (length (B ++ A))
length_drop t [] A = refl
length_drop t (b ∷ B) A = ground (arith, length_drop t B A)

pub length_front : (B A : Addrs) → length B ≤ length (B ++ A)
length_front [] A = omega arith
length_front (b ∷ B) A = omega (arith, length_front B A)

pub All-both : (P Q : Ptr → Type 0) (xs : Addrs) → All P xs → All Q xs → All (λ a. P a × Q a) xs
All-both P Q [] h k = tt
All-both P Q (a ∷ xs) h k = ((h.0, k.0), All-both P Q xs h.1 k.1)

-- The entries of the nodes `xs` in the heap `g` are those in `h`.
abbrev pub SameEntries : Heap → Heap → Addrs → Type 0
SameEntries h g xs = All (λ a. (g a).e ≡ (h a).e) xs

pub entries_same : (h g : Heap) (xs : Addrs) → SameEntries h g xs → entries g xs ≡ entries h xs
entries_same h g [] same = refl
entries_same h g (a ∷ xs) same = ground (arith, same.0, entries_same h g xs same.1)

pub Ranked-same : (h g : Heap) (xs : Addrs) → SameEntries h g xs → Ranked h xs → Ranked g xs
Ranked-same h g [] same r = tt
Ranked-same h g (a ∷ xs) same r = (
  All-map _ _ xs (λ b (k, l). ground (arith, same.0, l)) (All-both _ _ xs r.0 same.1),
  Ranked-same h g xs same.1 r.1,
)

pub OneEach-same : (h g : Heap) (xs : Addrs) → SameEntries h g xs → OneEach h xs → OneEach g xs
OneEach-same h g [] same r = tt
OneEach-same h g (a ∷ xs) same r = (
  All-map _ _ xs (λ b (k, l) e. ground (arith, same.0, l)) (All-both _ _ xs r.0 same.1),
  OneEach-same h g xs same.1 r.1,
)

pub find_user_same :
    (h g : Heap) (u : UserId) (xs : Addrs)
    → SameEntries h g xs
    → find_user g u xs ≡ find_user h u xs
find_user_same h g u [] same = refl
find_user_same h g u (a ∷ xs) same = ground (arith, same.0, find_user_same h g u xs same.1)

pub Ranked-drop : (h : Heap) (t : Ptr) (B A : Addrs) → Ranked h (B ++ t ∷ A) → Ranked h (B ++ A)
Ranked-drop h t [] A r = r.1
Ranked-drop h t (b ∷ B) A r = (All-drop _ t B A r.0, Ranked-drop h t B A r.1)

pub OneEach-drop : (h : Heap) (t : Ptr) (B A : Addrs) → OneEach h (B ++ t ∷ A) → OneEach h (B ++ A)
OneEach-drop h t [] A r = r.1
OneEach-drop h t (b ∷ B) A r = (All-drop _ t B A r.0, OneEach-drop h t B A r.1)

-- What stands before a node comes before its entry, and nothing else does.
pub Ranked-Below : (h : Heap) (t : Ptr) (B A : Addrs) → Ranked h (B ++ t ∷ A) → Below h (h t).e B
Ranked-Below h t [] A r = tt
Ranked-Below h t (b ∷ B) A r = (All-at _ t B A r.0, Ranked-Below h t B A r.1)

pub Ranked-NotBelow :
    (h : Heap) (t : Ptr) (B A : Addrs) → Ranked h (B ++ t ∷ A) → NotBelow h (h t).e (t ∷ A)
Ranked-NotBelow h t [] A r =
    (less_irrefl (h t).e, All-map _ _ A (λ b k. less_asym (h t).e (h b).e k) r.0)
Ranked-NotBelow h t (b ∷ B) A r = Ranked-NotBelow h t B A r.1

-- Where the node of a user stands.
pub find_user_cut :
    (h : Heap) (u : UserId) (xs : Addrs) (t : Ptr)
    → find_user h u xs ≡ some t
    → (B : Addrs) × (A : Addrs) × (xs ≡ B ++ t ∷ A)
      × ((h t).e.user ≡ u)
      × All (λ a. (h a).e.user ≢ u) B
find_user_cut h u [] t f = absurd (ground arith)
find_user_cut h u (a ∷ xs) t f = elim (Text-discrete (h a).e.user u) [
  | yes y ↦ ([], xs, ground arith, ground arith, tt)
  | no n ↦
      let (B, A, split, own, others) = find_user_cut h u xs t (ground arith) in
      (a ∷ B, A, ap (λ l. a ∷ l) split, own, (n, others))
]

pub find_user-none :
    (h : Heap) (u : UserId) (xs : Addrs) → find_user h u xs ≡ none → All (λ a. (h a).e.user ≢ u) xs
find_user-none h u [] f = tt
find_user-none h u (a ∷ xs) f = elim (Text-discrete (h a).e.user u) [
  | yes y ↦ absurd (ground arith)
  | no n ↦ (n, find_user-none h u xs (ground arith))
]

pub find_user_others :
    (h : Heap) (u : UserId) (xs : Addrs) → All (λ a. (h a).e.user ≢ u) xs → find_user h u xs ≡ none
find_user_others h u [] k = refl
find_user_others h u (a ∷ xs) k = ground (arith, k.0, find_user_others h u xs k.1)

pub drop_user_absent :
    (h : Heap) (u : UserId) (xs : Addrs)
    → All (λ a. (h a).e.user ≢ u) xs
    → drop_user u (entries h xs) ≡ entries h xs
drop_user_absent h u [] k = refl
drop_user_absent h u (a ∷ xs) k = ground (arith, k.0, drop_user_absent h u xs k.1)

pub drop_user_cut :
    (h : Heap) (t : Ptr) (B A : Addrs)
    → All (λ a. (h a).e.user ≢ (h t).e.user) B
    → drop_user (h t).e.user (entries h (B ++ t ∷ A)) ≡ entries h (B ++ A)
drop_user_cut h t [] A k = ground arith
drop_user_cut h t (b ∷ B) A k = ground (arith, k.0, drop_user_cut h t B A k.1)

pub find_user_drop :
    (h : Heap) (t : Ptr) (B A : Addrs) (v : UserId)
    → OneEach h (B ++ t ∷ A)
    → find_user h v (B ++ A) ≡ ite (Text-discrete (h t).e.user v) none (find_user h v (B ++ t ∷ A))
find_user_drop h t [] A v one = elim (Text-discrete (h t).e.user v) [
  | yes y ↦
      let others = All-map _ (λ b. (h b).e.user ≢ v) A (λ b k e. ground (arith, k)) one.0 in
      ground (arith, find_user_others h v A others)
  | no n ↦ ground arith
]
find_user_drop h t (b ∷ B) A v one =
    ground (arith, find_user_drop h t B A v one.1, All-at _ t B A one.0)
