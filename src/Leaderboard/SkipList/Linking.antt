-- ===== src/Leaderboard/SkipList/Linking.antt =====
-- What putting a node in, and taking one out, does to the pointers and to the chain of a level.
use gamifykit.Prelude.{
  ℕ, zero, suc, ◌+◌, ◌<◌, ◌≤◌, ◌≡◌, ◌≢◌, refl, arith, Bool, Bool-cases, ◌&&◌, inl, inr, [], ◌∷◌,
  ◌++◌, Option, some, ltb, leb, ◌==◌, if◌then◌else◌,
}
use gamifykit.Leaderboard.Entry.{less_irrefl}
use gamifykit.Leaderboard.SkipList.{Ptr, Heap, Preds, set_next, link, unlink, same_ptr}
use gamifykit.Leaderboard.SkipList.Chains.{
  Addrs, All, Chain, Ranked, tall, last_of, All-map, All-tall, Chain-frame,
}

abbrev in_range : ℕ → ℕ → ℕ → Bool
in_range i n j = leb i j && ltb j (i + n)

-- The pointers after `link`, where `u j` is the node before at level `j`.
abbrev pub linked : (ℕ → Ptr) → Ptr → ℕ → ℕ → Heap → Ptr → ℕ → Option Ptr
linked u p i n h a j =
    if in_range i n j
    then (if a == p then (h (u j)).next j else (if a == u j then some p else (h a).next j))
    else (h a).next j

abbrev relinked : Heap → Ptr → ℕ → Ptr → Heap
relinked h p i q = set_next (set_next h p i ((h q).next i)) q i (some p)

relinked_next :
    (h : Heap) (p : Ptr) (i : ℕ) (q a : Ptr) (j : ℕ)
    → (relinked h p i q a).next j ≡ (
        if j == i
        then (if a == q then some p else (if a == p then (h q).next i else (h a).next j))
        else (h a).next j)
unfolding set_next
relinked_next h p i q a j = ground arith

relinked_e : (h : Heap) (p : Ptr) (i : ℕ) (q a : Ptr) → (relinked h p i q a).e ≡ (h a).e
unfolding set_next
relinked_e h p i q a = ground arith

pub link_lem :
    (u : ℕ → Ptr) (n i : ℕ) (p : Ptr) (update : Preds) (h : Heap)
    → ((j : ℕ) → i ≤ j → j < i + n → update j ≡ some (u j))
    → ((j : ℕ) → u j ≢ p)
    → (h' : Heap) × (link n i p update h ≡ some h')
      × ((a : Ptr) → (h' a).e ≡ (h a).e)
      × ((a : Ptr) (j : ℕ) → (h' a).next j ≡ linked u p i n h a j)
unfolding link
link_lem u zero i p update h ready ne = (h, refl, λ a. refl, λ a j. ground arith)
link_lem u (suc n) i p update h ready ne =
    let q = u i in
    let here = ready i (omega arith) (omega arith) in
    let (h', e, es, nexts) =
      link_lem u n (i + 1) p update (relinked h p i q)
        (λ j l r. ready j (omega arith) (omega arith)) ne in
    (
      h',
      rw (here, link) e,
      λ a. ground (arith, es a, relinked_e h p i q a),
      λ a j.
          ground (arith, nexts a j, relinked_next h p i q a j, relinked_next h p i q (u j) j, ne j),
    )

-- The pointers after `unlink`.
abbrev pub unlinked : (ℕ → Ptr) → Ptr → ℕ → ℕ → Heap → Ptr → ℕ → Option Ptr
unlinked u p i n h a j =
    if in_range i n j && (a == u j && same_ptr ((h a).next j) p) then (h p).next j else (h a).next j

abbrev cut_out : Heap → Ptr → ℕ → Ptr → Heap
cut_out h p i q = if same_ptr ((h q).next i) p then set_next h q i ((h p).next i) else h

cut_out_next :
    (h : Heap) (p : Ptr) (i : ℕ) (q a : Ptr) (j : ℕ)
    → (cut_out h p i q a).next j
      ≡ (if (j == i) && ((a == q) && same_ptr ((h a).next j) p) then (h p).next j else (h a).next j)
unfolding set_next
cut_out_next h p i q a j = elim (Bool-cases (same_ptr ((h q).next i) p)) [
  | inl t ↦ rw t (ground arith)
  | inr t ↦ rw t (ground arith)
]

cut_out_e : (h : Heap) (p : Ptr) (i : ℕ) (q a : Ptr) → (cut_out h p i q a).e ≡ (h a).e
unfolding set_next
cut_out_e h p i q a = elim (Bool-cases (same_ptr ((h q).next i) p)) [
  | inl t ↦ rw t (ground arith)
  | inr t ↦ rw t refl
]

pub unlink_lem :
    (u : ℕ → Ptr) (n i : ℕ) (p : Ptr) (update : Preds) (h : Heap)
    → ((j : ℕ) → i ≤ j → j < i + n → update j ≡ some (u j))
    → (h' : Heap) × (unlink n i p update h ≡ some h')
      × ((a : Ptr) → (h' a).e ≡ (h a).e)
      × ((a : Ptr) (j : ℕ) → (h' a).next j ≡ unlinked u p i n h a j)
unfolding unlink
unlink_lem u zero i p update h ready = (h, refl, λ a. refl, λ a j. ground arith)
unlink_lem u (suc n) i p update h ready =
    let q = u i in
    let here = ready i (omega arith) (omega arith) in
    let (h', e, es, nexts) =
      unlink_lem u n (i + 1) p update (cut_out h p i q)
        (λ j l r. ready j (omega arith) (omega arith)) in
    (
      h',
      rw (here, unlink) e,
      λ a. ground (arith, es a, cut_out_e h p i q a),
      λ a j. ground (arith, nexts a j, cut_out_next h p i q a j, cut_out_next h p i q p j),
    )

-- No address stands twice.
abbrev pub Distinct : Addrs → Type 0
Distinct [] = Unit
Distinct (a ∷ xs) = All (λ b. a ≢ b) xs × Distinct xs

pub Ranked-Distinct : (h : Heap) (xs : Addrs) → Ranked h xs → Distinct xs
Ranked-Distinct h [] r = tt
Ranked-Distinct h (a ∷ xs) r =
    (All-map _ _ xs (λ b k e. ground (arith, less_irrefl (h a).e)) r.0, Ranked-Distinct h xs r.1)

pub Distinct-tall : (ht : Ptr → ℕ) (i : ℕ) (xs : Addrs) → Distinct xs → Distinct (tall ht i xs)
Distinct-tall ht i [] d = tt
Distinct-tall ht i (a ∷ xs) d = elim (Bool-cases (ltb i (ht a))) [
  | inl t ↦ rw t (All-tall _ ht i xs d.0, Distinct-tall ht i xs d.1)
  | inr t ↦ rw t (Distinct-tall ht i xs d.1)
]

last_of_apart : (q a : Ptr) (xs ys : Addrs) → All (λ b. q ≢ b) (a ∷ xs ++ ys) → q ≢ last_of a xs
last_of_apart q a [] ys h = h.0
last_of_apart q a (b ∷ xs) ys h = last_of_apart q b xs ys h.1

-- A level with `p` put in behind the nodes `L`.
pub Chain-insert :
    (h g : Heap) (i : ℕ) (p q : Ptr) (L H : Addrs)
    → Distinct (q ∷ L ++ H)
    → All (λ a. p ≢ a) (q ∷ L ++ H)
    → ((a : Ptr)
        → (g a).next i ≡ (
            if a == p
            then (h (last_of q L)).next i
            else (if a == last_of q L then some p else (h a).next i)))
    → Chain h i q (L ++ H)
    → Chain g i q (L ++ p ∷ H)
Chain-insert h g i p q [] [] d out nexts c = (ground (arith, nexts q), ground (arith, nexts p))
Chain-insert h g i p q [] (b ∷ H) d out nexts c = (
  ground (arith, nexts q),
  (
    ground (arith, nexts p),
    Chain-frame h g i b H (ground (arith, nexts b))
        (All-map _ _ H (λ a (k, l). ground (arith, nexts a)) (both H d.0.1 out.1.1)) c.1,
  ),
)
  where
    both : (H : Addrs) → All (λ a. q ≢ a) H → All (λ a. p ≢ a) H → All (λ a. (q ≢ a) × (p ≢ a)) H
    both [] k l = tt
    both (a ∷ H) k l = ((k.0, l.0), both H k.1 l.1)
Chain-insert h g i p q (a ∷ L) H d out nexts c = (
  ground (arith, nexts q, last_of_apart q a L H d.0),
  Chain-insert h g i p a L H d.1 out.1 nexts c.1,
)

-- A level with `t` taken out from behind the nodes `L`.
pub Chain-delete :
    (h g : Heap) (i : ℕ) (t q : Ptr) (L H : Addrs)
    → Distinct (q ∷ L ++ t ∷ H)
    → ((a : Ptr) → (g a).next i ≡ (if a == last_of q L then (h t).next i else (h a).next i))
    → Chain h i q (L ++ t ∷ H)
    → Chain g i q (L ++ H)
Chain-delete h g i t q [] [] d nexts c = ground (arith, nexts q)
Chain-delete h g i t q [] (b ∷ H) d nexts c = (
  ground (arith, nexts q),
  Chain-frame h g i b H (ground (arith, nexts b))
      (All-map _ _ H (λ a k. ground (arith, nexts a)) d.0.1.1) c.1.1,
)
Chain-delete h g i t q (a ∷ L) H d nexts c = (
  ground (arith, nexts q, last_of_apart q a L (t ∷ H) d.0),
  Chain-delete h g i t a L H d.1 nexts c.1,
)
