-- ===== src/Leaderboard/SkipList/Board/Insertion.antt =====
-- Putting a new entry into the skip list puts it at its place on the board.
use gamifykit.Prelude.{
  ℕ, ◌+◌, ◌-◌, ◌<◌, ◌≤◌, ◌≡◌, ◌≢◌, refl, ap, sym, arith, Bool-cases, inl, inr, List, ◌∷◌, ◌++◌,
  none, some, true, false, ltb, ◌==◌, if◌then◌else◌, length,
}
use gamifykit.Prelude.Int.{ℤ}
use gamifykit.Prelude.GoMap.{get, put, get-put}
use gamifykit.Prelude.Text.{text_key}
use gamifykit.Core.{UserId}
use gamifykit.Leaderboard.Entry.{Entry, less, less_total}
use gamifykit.Leaderboard.SkipList.{
  Ptr, Heap, SkipList, Preds, Draws, head, max_level, blank_node, no_preds, raise, put_in, insert,
  random_level, update,
}
use gamifykit.Leaderboard.SkipList.Chains.{
  Addrs, All, Chain, Below, NotBelow, tall, last_of, tall-append, All-tall, All-map, All-front,
  All-back, Chain-frame, cut,
}
use gamifykit.Leaderboard.SkipList.Search.{search_head}
use gamifykit.Leaderboard.SkipList.Linking.{linked, link_lem, Chain-insert}
use gamifykit.Leaderboard.SkipList.Heights.{
  tall_above, with_height, tall_others, raise_lem, random_level_bounds,
}
use gamifykit.Leaderboard.SkipList.Board.{Represents, drop_user, place, level-Distinct}
use gamifykit.Leaderboard.SkipList.Board.Cuts.{
  All-add, All-both, length_front, length_drop, SameEntries, entries_same, Ranked-same,
  OneEach-same, find_user_same, find_user-none,
}
use gamifykit.Leaderboard.SkipList.Board.Removal.{remove-Represents}
use gamifykit.Leaderboard.SkipList.Board.Splicing.{
  Ranked-add, OneEach-add, find_user_add, place_cut, last_of-All,
}

-- The new node `p` of `n` levels, which stands in the heap `h0` but not in the levels yet.
module _ {s : SkipList} {l : List Entry} (r : Represents s l) (p n : ℕ) (h0 g : Heap)
    (lo hi : Addrs) (split : r.order ≡ lo ++ hi) (new : All (λ a. p ≢ a) r.order)
    (nonzero : head ≢ p) (old : (a : Ptr) → a ≢ p → h0 a ≡ s.heap a)
    (nexts : (a : Ptr) (i : ℕ)
      → (g a).next i ≡ linked (λ j. last_of head (tall r.ht j lo)) p 0 n h0 a i)
    (i : ℕ) where
  parts : tall r.ht i lo ++ tall r.ht i hi ≡ tall r.ht i r.order
  parts = rw (split, tall-append r.ht i lo hi) refl

  others : All (λ a. p ≢ a) (tall r.ht i lo ++ tall r.ht i hi)
  others = rw parts (All-tall _ r.ht i r.order new)

  old-Chain : Chain h0 i head (tall r.ht i lo ++ tall r.ht i hi)
  old-Chain =
      Chain-frame s.heap h0 i head (tall r.ht i lo ++ tall r.ht i hi) (ground (arith, old head))
        (All-map _ _ _ (λ a k. ground (arith, old a)) others) (rw parts (r.chains i))

  level_in : ltb i n ≡ true → Chain g i head (tall r.ht i lo ++ p ∷ tall r.ht i hi)
  level_in b =
      Chain-insert h0 g i p head (tall r.ht i lo) (tall r.ht i hi) (rw parts (level-Distinct r i))
        (λ e. ground arith, others) (λ a. ground (arith, nexts a i)) old-Chain

  level_out : ltb i n ≡ false → Chain g i head (tall r.ht i lo ++ tall r.ht i hi)
  level_out b =
      Chain-frame h0 g i head (tall r.ht i lo ++ tall r.ht i hi) (ground (arith, nexts head i))
        (All-map _ _ _ (λ a k. ground (arith, nexts a i)) others) old-Chain

  new-Chain : Chain g i head (tall (with_height r.ht p n) i (lo ++ p ∷ hi))
  new-Chain =
      let new' = rw split at new in
      let own : with_height r.ht p n p ≡ n = ground arith in
      rw
        (
          tall-append (with_height r.ht p n) i lo (p ∷ hi),
          tall_others r.ht p n i lo (All-front _ lo hi new'),
          tall_others r.ht p n i hi (All-back _ lo hi new'),
        )
        (elim (Bool-cases (ltb i n)) [
          | inl b ↦ rw (own, b) (level_in b)
          | inr b ↦ rw (own, b) (level_out b)
        ])

-- The board with the new node, in a heap that has its entry and spares the others.
module _ {s : SkipList} {l : List Entry} (r : Represents s l) (e : Entry) (g : Heap) (lo hi : Addrs)
    (split : r.order ≡ lo ++ hi) (below : Below s.heap e lo) (above : NotBelow s.heap e hi)
    (absent : All (λ a. (s.heap a).e.user ≢ e.user) (lo ++ hi)) (own : (g s.fresh).e ≡ e)
    (kept : SameEntries s.heap g (lo ++ hi)) where
  Below-new : Below g (g s.fresh).e lo
  Below-new =
      All-map _ _ lo (λ a (b, k). ground (arith, own, k))
        (All-both _ _ lo below (All-front _ lo hi kept))

  NotBelow-new : NotBelow g (g s.fresh).e hi
  NotBelow-new =
      All-map _ _ hi (λ a (b, k). ground (arith, own, k))
        (All-both _ _ hi above (All-back _ lo hi kept))

  absent_new : All (λ a. (g a).e.user ≢ (g s.fresh).e.user) (lo ++ hi)
  absent_new =
      All-map _ _ (lo ++ hi) (λ a (n, k) m. n (ground (arith, own, k)))
        (All-both _ _ (lo ++ hi) absent kept)

  above_new : All (λ b. less (g s.fresh).e (g b).e ≡ true) hi
  above_new =
      All-map _ _ hi (λ b (k, n). less_total (g b).e (g s.fresh).e n k)
        (All-both _ _ hi NotBelow-new (All-back _ lo hi absent_new))

  in-Represents :
      (n : ℕ)
      → 1 ≤ n
      → n ≤ max_level
      → ((i : ℕ) → Chain g i head (tall (with_height r.ht s.fresh n) i (lo ++ s.fresh ∷ hi)))
      → Represents
          (record {
            heap = g;
            fresh = s.fresh + 1;
            lvl = if ltb s.lvl n then n else s.lvl;
            by_user = put s.by_user e.user s.fresh;
          })
          (place e l)
  in-Represents n low high chains =
      let p = s.fresh in
      record {
        order = lo ++ p ∷ hi;
        ht = with_height r.ht p n;
        shown = ground (
          arith,
          r.shown,
          split,
          own,
          entries_same s.heap g (lo ++ hi) kept,
          place_cut g p lo hi Below-new NotBelow-new,
        );
        chains = chains;
        ranked =
            Ranked-add g p lo hi Below-new above_new
              (Ranked-same s.heap g (lo ++ hi) kept (rw split at r.ranked));
        one_each =
            OneEach-add g p lo hi absent_new
              (OneEach-same s.heap g (lo ++ hi) kept (rw split at r.one_each));
        heights = All-add _ p lo hi (ground arith) (
            All-map _ _ (lo ++ hi) (λ a (k, m). ground arith)
              (rw split at (All-both _ _ r.order r.heights r.addresses)));
        addresses =
            All-add _ p lo hi (omega (arith, r.room), omega arith)
              (All-map _ _ (lo ++ hi) (λ a (k, m). (k, omega (arith, m)))
                (rw split at r.addresses));
        room = omega (arith, r.room, ap length split, length_drop p lo hi);
        lvl_low = ground (arith, r.lvl_low);
        lvl_high = ground (arith, r.lvl_high);
        index = λ v. ground (
          arith,
          get-put s.by_user e.user v p,
          r.index v,
          split,
          own,
          find_user_same s.heap g v (lo ++ hi) kept,
          find_user_add g p lo hi v absent_new,
        );
      }

-- The nodes to link the new node behind, those of the levels that are added included.
preds_ready :
    {s : SkipList} {l : List Entry} (r : Represents s l) (n : ℕ) (lo hi : Addrs) (u : Preds)
    → r.order ≡ lo ++ hi
    → ((j : ℕ) → j < s.lvl → u j ≡ some (last_of head (tall r.ht j lo)))
    → (j : ℕ) → j < n
    → (if ltb s.lvl n then raise (n - s.lvl) s.lvl u else u) j
      ≡ some (last_of head (tall r.ht j lo))
preds_ready {s} r n lo hi u split found j k =
    let heights = All-front (λ a. (1 ≤ r.ht a) × (r.ht a ≤ s.lvl)) lo hi (rw split at r.heights) in
    ground (
      arith,
      found j,
      raise_lem (n - s.lvl) s.lvl u j,
      λ (m : s.lvl ≤ j). tall_above r.ht s.lvl j lo m heights,
    )

-- The insertion of a user who is not on the board returns.
pub insert-Represents :
    {s : SkipList} {l : List Entry}
    → Represents s l
    → (e : Entry) (n : ℕ) → get s.by_user e.user ≡ none
    → 1 ≤ n
    → n ≤ max_level
    → (s' : SkipList) × (insert s e n ≡ some s') × Represents s' (place e l)
unfolding insert put_in
insert-Represents {s} r e n unknown low high =
    let h0 : Heap = λ a. if a == s.fresh then blank_node e else s.heap a in
    let (lo, hi, split, below, above) = cut s.heap e r.order r.ranked in
    let (u, searched, (found, _)) =
      search_head s.heap e r.ht lo hi (λ i. rw (← split) (r.chains i)) below above s.lvl s.fresh
        no_preds (omega (arith, r.room, ap length split, length_front lo hi)) in
    let ready = preds_ready r n lo hi u split found in
    let new =
      All-map (λ a. (0 < a) × (a < s.fresh)) (λ a. s.fresh ≢ a) r.order
        (λ a (k, m) eq. omega (arith, m)) r.addresses in
    let nonzero : head ≢ s.fresh = λ eq. omega (arith, r.room) in
    let apart : (j : ℕ) → last_of head (tall r.ht j lo) ≢ s.fresh = λ j eq.
      last_of-All (λ a. s.fresh ≢ a) head (tall r.ht j lo) (λ k. nonzero (sym k))
        (All-tall _ r.ht j lo (All-front _ lo hi (rw split at new))) (sym eq) in
    let (g, e', same, nexts) =
      link_lem (λ j. last_of head (tall r.ht j lo)) n 0 s.fresh
        (if ltb s.lvl n then raise (n - s.lvl) s.lvl u else u) h0
        (λ j k m. ready j (omega (arith, m))) apart in
    let absent =
      rw split at (find_user-none s.heap e.user r.order (rw unknown at (sym (r.index e.user)))) in
    let kept =
      All-map (λ a. s.fresh ≢ a) (λ a. (g a).e ≡ (s.heap a).e) (lo ++ hi)
        (λ a k. ground (arith, same a)) (rw split at new) in
    (
      _,
      ground (arith, searched, e'),
      in-Represents r e g lo hi split below above absent (ground (arith, same s.fresh)) kept n low
          high
          (λ i. new-Chain r s.fresh n h0 g lo hi split new nonzero (λ a k. ground arith) nexts i),
    )

-- `Update` returns, and moves the user's entry to its place on the board.
pub update-Represents :
    {s : SkipList} {l : List Entry}
    → Represents s l
    → (u : UserId) (score : ℤ) (ds : Draws)
    → (s' : SkipList) × (ds' : Draws) × (update s u score ds ≡ some (s', ds'))
      × Represents s' (place (record { user = u; score = score }) (drop_user u l))
unfolding update
update-Represents r u score ds =
    let (s1, e1, gone, r1) = remove-Represents r u in
    let (low, high) = random_level_bounds ds in
    let (s2, e2, r2) =
      insert-Represents r1 (record { user = u; score = score }) (random_level ds).0 gone low high in
    (s2, (random_level ds).1, ground (arith, e1, e2), r2)
