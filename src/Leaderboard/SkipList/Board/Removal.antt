-- ===== src/Leaderboard/SkipList/Board/Removal.antt =====
-- Taking a user out of the skip list takes the user off the board.
use gamifykit.Prelude.{
  ℕ, ◌<◌, ◌≤◌, ◌≡◌, ◌≢◌, inl, inr, ap, subst, ◌∙◌, arith, Bool-cases, Option-cases, List, [], ◌∷◌,
  ◌++◌, none, some, true, false, ltb, length,
}
use gamifykit.Prelude.GoMap.{get, delete, get-delete}
use gamifykit.Prelude.Text.{text_key}
use gamifykit.Core.{UserId}
use gamifykit.Leaderboard.Entry.{Entry}
use gamifykit.Leaderboard.SkipList.{
  Ptr, Heap, SkipList, Preds, head, no_preds, search_down, with_lvl, take_out, remove_locked,
  remove,
}
use gamifykit.Leaderboard.SkipList.Chains.{
  Addrs, All, Chain, tall, last_of, first_of, next-last_of, tall-append, All-tall, All-map,
  Chain-frame,
}
use gamifykit.Leaderboard.SkipList.Search.{search_head}
use gamifykit.Leaderboard.SkipList.Linking.{
  Ranked-Distinct, unlinked, unlink_lem, Chain-delete, Distinct,
}
use gamifykit.Leaderboard.SkipList.Board.{Represents, find_user, drop_user, level-Distinct}
use gamifykit.Leaderboard.SkipList.Heights.{shrink_lem}
use gamifykit.Leaderboard.SkipList.Board.Cuts.{
  All-every, All-drop, length_front, All-at, length_drop, entries_same, Ranked-same, OneEach-same,
  find_user_same, Ranked-drop, OneEach-drop, Ranked-Below, Ranked-NotBelow, find_user_cut,
  find_user-none, drop_user_absent, drop_user_cut, find_user_drop,
}

-- A level that `unlink` was on, when its node `t` stands between `B` and `A`.
module _ (h g : Heap) (ht : Ptr → ℕ) (n : ℕ) (t : Ptr) (B A : Addrs) (i : ℕ)
    (nexts : (a : Ptr) → (g a).next i ≡ unlinked (λ j. last_of head (tall ht j B)) t 0 n h a i)
    (chain : Chain h i head (tall ht i B ++ tall ht i (t ∷ A)))
    (apart : Distinct (head ∷ tall ht i B ++ tall ht i (t ∷ A))) (height : ht t ≤ n) where
  level_with : ltb i (ht t) ≡ true → Chain g i head (tall ht i B ++ tall ht i A)
  level_with b =
      let chain' : Chain h i head (tall ht i B ++ t ∷ tall ht i A) = rw b at chain in
      let apart' : Distinct (head ∷ tall ht i B ++ t ∷ tall ht i A) = rw b at apart in
      let next = next-last_of h i head (tall ht i B) (t ∷ tall ht i A) chain' in
      Chain-delete h g i t head (tall ht i B) (tall ht i A) apart'
        (λ a. ground (arith, nexts a, next)) chain'

  level_without :
      All (λ a. t ≢ a) A → ltb i (ht t) ≡ false → Chain g i head (tall ht i B ++ tall ht i A)
  level_without others b =
      let chain' : Chain h i head (tall ht i B ++ tall ht i A) = rw b at chain in
      let next = next-last_of h i head (tall ht i B) (tall ht i A) chain' in
      let same : (a : Ptr) → (g a).next i ≡ (h a).next i =
        λ a. spared a (tall ht i A) (All-tall _ ht i A others) next in
      Chain-frame h g i head (tall ht i B ++ tall ht i A) (same head) (All-every _ _ same) chain'
    where
      spared :
          (a : Ptr) (xs : Addrs)
          → All (λ c. t ≢ c) xs
          → (h (last_of head (tall ht i B))).next i ≡ first_of xs
          → (g a).next i ≡ (h a).next i
      spared a [] ne e = ground (arith, nexts a)
      spared a (c ∷ xs) ne e = ground (arith, nexts a, ne.0)

Distinct-behind : (t : Ptr) (B A : Addrs) → Distinct (B ++ t ∷ A) → All (λ a. t ≢ a) A
Distinct-behind t [] A d = d.0
Distinct-behind t (b ∷ B) A d = Distinct-behind t B A d.1

-- The search for the entry of the node `t` ends right before it at every level.
search_node :
    {s : SkipList} {l : List Entry} (r : Represents s l) (t : Ptr) (B A : Addrs)
    → r.order ≡ B ++ t ∷ A
    → (u : Preds) × (search_down s.lvl s.fresh s.heap (s.heap t).e head no_preds ≡ some u)
      × ((j : ℕ) → j < s.lvl → u j ≡ some (last_of head (tall r.ht j B)))
search_node {s} r t B A split =
    let ranked = rw split at r.ranked in
    let (u, e, found) =
      search_head s.heap (s.heap t).e r.ht B (t ∷ A) (λ i. rw (← split) (r.chains i))
        (Ranked-Below s.heap t B A ranked) (Ranked-NotBelow s.heap t B A ranked) s.lvl s.fresh
        no_preds (omega (arith, r.room, ap length split, length_front B (t ∷ A))) in
    (u, e, found.0)

-- The board without the node `t`, in a heap that `unlink` left.
module _ {s : SkipList} {l : List Entry} (r : Represents s l) (t : Ptr) (B A : Addrs)
    (split : r.order ≡ B ++ t ∷ A) where
  height : (1 ≤ r.ht t) × (r.ht t ≤ s.lvl)
  height = All-at (λ a. (1 ≤ r.ht a) × (r.ht a ≤ s.lvl)) t B A (rw split at r.heights)

  level-Chain : (i : ℕ) → Chain s.heap i head (tall r.ht i B ++ tall r.ht i (t ∷ A))
  level-Chain i = rw (← tall-append r.ht i B (t ∷ A), ← split) (r.chains i)

  level_apart : (i : ℕ) → Distinct (head ∷ tall r.ht i B ++ tall r.ht i (t ∷ A))
  level_apart i = rw (← tall-append r.ht i B (t ∷ A), ← split) (level-Distinct r i)

  next_target : (s.heap (last_of head (tall r.ht 0 B))).next 0 ≡ some t
  next_target =
      let b : ltb 0 (r.ht t) ≡ true = ground (arith, height.0) in
      let chain : Chain s.heap 0 head (tall r.ht 0 B ++ t ∷ tall r.ht 0 A) =
        rw b at (level-Chain 0) in
      next-last_of s.heap 0 head (tall r.ht 0 B) (t ∷ tall r.ht 0 A) chain

  module _ (g : Heap) (same : (a : Ptr) → (g a).e ≡ (s.heap a).e)
      (nexts : (a : Ptr) (j : ℕ)
        → (g a).next j ≡ unlinked (λ j. last_of head (tall r.ht j B)) t 0 s.lvl s.heap a j) where
    chains_left : (i : ℕ) → Chain g i head (tall r.ht i (B ++ A))
    chains_left i = rw (tall-append r.ht i B A) (elim (Bool-cases (ltb i (r.ht t))) [
      | inl b ↦
          level_with s.heap g r.ht s.lvl t B A i (λ a. nexts a i) (level-Chain i) (level_apart i)
            (height.1) b
      | inr b ↦
          level_without s.heap g r.ht s.lvl t B A i (λ a. nexts a i) (level-Chain i) (level_apart i)
            (height.1)
            (Distinct-behind t B A (rw split at (Ranked-Distinct s.heap r.order r.ranked))) b
    ])

    left-Represents :
        All (λ a. (s.heap a).e.user ≢ (s.heap t).e.user) B
        → Represents
            (with_lvl (record s { heap = g; by_user = delete s.by_user (s.heap t).e.user }))
            (drop_user (s.heap t).e.user l)
    left-Represents others =
        let heights =
          All-drop (λ a. (1 ≤ r.ht a) × (r.ht a ≤ s.lvl)) t B A (rw split at r.heights) in
        let (low, high, hs) = shrink_lem s.lvl g r.ht (B ++ A) r.lvl_low chains_left heights in
        let one = rw split at r.one_each in
        let kept = All-every (λ a. (g a).e ≡ (s.heap a).e) (B ++ A) same in
        record {
          order = B ++ A;
          ht = r.ht;
          shown = ground (
            arith,
            r.shown,
            split,
            drop_user_cut s.heap t B A others,
            entries_same s.heap g (B ++ A) kept,
          );
          chains = chains_left;
          ranked =
              Ranked-same s.heap g (B ++ A) kept (Ranked-drop s.heap t B A (rw split at r.ranked));
          one_each = OneEach-same s.heap g (B ++ A) kept (OneEach-drop s.heap t B A one);
          heights = hs;
          addresses = All-drop _ t B A (rw split at r.addresses);
          room = omega (arith, r.room, ap length split, length_drop t B A);
          lvl_low = low;
          lvl_high = omega (arith, high, r.lvl_high);
          index = λ v. ground (
            arith,
            get-delete s.by_user (s.heap t).e.user v,
            r.index v,
            split,
            find_user_same s.heap g v (B ++ A) kept,
            find_user_drop s.heap t B A v one,
          );
        }

remove_node :
    {s : SkipList} {l : List Entry} (r : Represents s l) (t : Ptr) (B A : Addrs)
    → r.order ≡ B ++ t ∷ A
    → All (λ a. (s.heap a).e.user ≢ (s.heap t).e.user) B
    → (s' : SkipList) × (remove_locked s (s.heap t).e.user (s.heap t).e ≡ some s')
      × (get s'.by_user (s.heap t).e.user ≡ none)
      × Represents s' (drop_user (s.heap t).e.user l)
unfolding remove_locked take_out
remove_node {s} r t B A split others =
    let (u, searched, found) = search_node r t B A split in
    let (g, e, same, nexts) =
      unlink_lem (λ j. last_of head (tall r.ht j B)) s.lvl 0 t u s.heap
        (λ j k m. found j (omega (arith, m))) in
    let first = found 0 (omega (arith, r.lvl_low)) in
    let target = next_target r t B A split in
    (
      _,
      ground (arith, searched, first, target, e),
      ground (arith, get-delete s.by_user (s.heap t).e.user (s.heap t).e.user),
      left-Represents r t B A split g same nexts others,
    )

-- `Remove` returns, and takes the user off the board.
pub remove-Represents :
    {s : SkipList} {l : List Entry}
    → Represents s l
    → (u : UserId)
    → (s' : SkipList) × (remove s u ≡ some s')
      × (get s'.by_user u ≡ none)
      × Represents s' (drop_user u l)
unfolding remove
remove-Represents {s} {l} r u = elim (Option-cases (find_user s.heap u r.order)) [
  | inl e ↦
      let same = drop_user_absent s.heap u r.order (find_user-none s.heap u r.order e) in
      (
        s,
        ground (arith, r.index u),
        ground (arith, r.index u),
        subst (λ m. Represents s m) (ground (arith, same, r.shown)) r,
      )
  | inr (t, e) ↦
      let (B, A, split, own, others) = find_user_cut s.heap u r.order t e in
      let (s', done, gone, left) =
        remove_node r t B A split (All-map _ _ B (λ a n m. n (m ∙ own)) others) in
      (
        s',
        ground (arith, r.index u, e, own, done),
        ground (arith, own, gone),
        subst (λ v. Represents s' (drop_user v l)) own left,
      )
]
