-- ===== src/Leaderboard/SkipList.antt =====
-- leaderboard/skiplist.go, with its nodes in an explicit heap. Address 0 is the head. A call that
-- does not return, by a nil pointer or by an endless loop, is `none`; the walk along a level runs
-- on fuel, one round for each node that was ever allocated. The mutex makes a call one step.
pub mod Chains
pub mod Search
pub mod Linking
pub mod Heights
pub mod Board
use gamifykit.Prelude.{
  ℕ, zero, suc, ◌+◌, ◌-◌, ◌/◌, ◌%◌, Bool, true, false, List, [], ◌∷◌, Option, none, some, ltb, leb,
  ◌==◌, if◌then◌else◌, ite,
}
use gamifykit.Prelude.Int.{ℤ, pos, negsuc}
use gamifykit.Prelude.GoMap.{GoMap, get, put, delete}
use gamifykit.Prelude.Text.{text_key, Text-discrete}
use gamifykit.Core.{UserId}
use gamifykit.Leaderboard.Entry.{Entry, less}

abbrev pub Ptr : Type 0
Ptr = ℕ

-- `next` by level; nil is `none`.
pub record Node : Type 0 where
  pub e : Entry
  pub next : ℕ → Option Ptr

abbrev pub Heap : Type 0
Heap = Ptr → Node

abbrev pub head : Ptr
head = 0

abbrev pub max_level : ℕ
max_level = 16

-- `fresh` is the next address to be allocated.
pub record SkipList : Type 0 where
  pub heap : Heap
  pub fresh : Ptr
  pub lvl : ℕ
  pub by_user : GoMap UserId Ptr

abbrev pub blank_node : Entry → Node
blank_node e = record { e = e; next = λ i. none }

unfoldable pub new_skip_list : SkipList
new_skip_list = record {
  heap = λ p. blank_node (record { user = []; score = pos 0 });
  fresh = 1;
  lvl = 1;
  by_user = [];
}

-- `p.next[i] = q`
unfoldable pub set_next : Heap → Ptr → ℕ → Option Ptr → Heap
set_next h p i q a =
    if a == p then record (h a) { next = λ j. if j == i then q else (h a).next j } else h a

-- The coming results of `randomUint64`; where they end, it fails.
abbrev pub Draws : Type 0
Draws = List (Option ℕ)

unfoldable pub random_uint64 : Draws → Option ℕ × Draws
random_uint64 [] = (none, [])
random_uint64 (d ∷ ds) = (d, ds)

-- The loop of `randomLevel`, `n` rounds before `maxLevel` is reached.
unfoldable pub level_loop : ℕ → ℕ → ℕ → Draws → ℕ × Draws
level_loop zero lvl bits ds = (lvl, ds)
level_loop (suc n) lvl bits ds =
    if bits % 4 == 0
    then (if bits / 4 == 0
        then (elim ((random_uint64 ds).0) [
          | none ↦ (lvl + 1, (random_uint64 ds).1)
          | some more ↦ level_loop n (lvl + 1) more (random_uint64 ds).1
        ])
        else level_loop n (lvl + 1) (bits / 4) ds)
    else (lvl, ds)

unfoldable pub random_level : Draws → ℕ × Draws
random_level ds = elim ((random_uint64 ds).0) [
  | none ↦ (1, (random_uint64 ds).1)
  | some bits ↦ level_loop 15 1 bits (random_uint64 ds).1
]

-- `for cur.next[i] != nil && less(cur.next[i].e, e) { cur = cur.next[i] }`
unfoldable pub walk : ℕ → Heap → ℕ → Entry → Ptr → Option Ptr
walk zero h i e cur = none
walk (suc fuel) h i e cur = elim ((h cur).next i) [
  | none ↦ some cur
  | some p ↦ elim (less (h p).e e) [ true ↦ walk fuel h i e p | false ↦ some cur ]
]

-- `update`, by level
abbrev pub Preds : Type 0
Preds = ℕ → Option Ptr

abbrev pub no_preds : Preds
no_preds i = none

abbrev pub set_pred : Preds → ℕ → Ptr → Preds
set_pred update i p j = if j == i then some p else update j

-- The search down from level `i - 1`.
unfoldable pub search_down : ℕ → ℕ → Heap → Entry → Ptr → Preds → Option Preds
search_down zero fuel h e cur update = some update
search_down (suc i) fuel h e cur update = elim (walk fuel h i e cur) [
  | none ↦ none
  | some p ↦ search_down i fuel h e p (set_pred update i p)
]

-- `for i := s.lvl; i < lvl; i++ { update[i] = s.head }`, for `n` levels.
unfoldable pub raise : ℕ → ℕ → Preds → Preds
raise zero i update = update
raise (suc n) i update = raise n (i + 1) (set_pred update i head)

-- The loop that puts the node `p` in, from level `i` on for `n` levels.
unfoldable pub link : ℕ → ℕ → Ptr → Preds → Heap → Option Heap
link zero i p update h = some h
link (suc n) i p update h = elim (update i) [
  | none ↦ none
  | some q ↦ link n (i + 1) p update (set_next (set_next h p i ((h q).next i)) q i (some p))
]

abbrev pub same_ptr : Option Ptr → Ptr → Bool
same_ptr none q = false
same_ptr (some p) q = p == q

-- The loop that takes the node `p` out.
unfoldable pub unlink : ℕ → ℕ → Ptr → Preds → Heap → Option Heap
unlink zero i p update h = some h
unlink (suc n) i p update h = elim (update i) [
  | none ↦ none
  | some q ↦
      unlink n (i + 1) p update
        (if same_ptr ((h q).next i) p then set_next h q i ((h p).next i) else h)
]

-- `for s.lvl > 1 && s.head.next[s.lvl-1] == nil { s.lvl-- }`
unfoldable pub shrink : ℕ → Heap → ℕ
shrink zero h = zero
shrink (suc zero) h = suc zero
shrink (suc (suc n)) h = elim ((h head).next (suc n)) [
  | none ↦ shrink (suc n) h
  | some _ ↦ suc (suc n)
]

abbrev pub with_lvl : SkipList → SkipList
with_lvl s = record s { lvl = shrink s.lvl s.heap }

-- `removeLocked` behind the search.
unfoldable pub take_out : SkipList → UserId → Preds → Option SkipList
take_out s user update = elim (update 0) [
  | none ↦ none
  | some q ↦ elim ((s.heap q).next 0) [
    | none ↦ some s
    | some target ↦
        ite (Text-discrete (s.heap target).e.user user)
          (elim (unlink s.lvl 0 target update s.heap) [
            | none ↦ none
            | some h ↦ some (with_lvl (record s { heap = h; by_user = delete s.by_user user }))
          ])
          (some s)
  ]
]

unfoldable pub remove_locked : SkipList → UserId → Entry → Option SkipList
remove_locked s user e = elim (search_down s.lvl s.fresh s.heap e head no_preds) [
  | none ↦ none
  | some update ↦ take_out s user update
]

unfoldable pub remove : SkipList → UserId → Option SkipList
remove s user = elim (get s.by_user user) [
  | none ↦ some s
  | some n ↦ remove_locked s user (s.heap n).e
]

-- The node `n` with the entry `e`, of `lvl` levels.
unfoldable pub put_in : SkipList → Entry → ℕ → Preds → Option SkipList
put_in s e lvl update =
    let preds = (if ltb s.lvl lvl then raise (lvl - s.lvl) s.lvl update else update) in
    let top = (if ltb s.lvl lvl then lvl else s.lvl) in
    elim (link lvl 0 s.fresh preds (λ a. if a == s.fresh then blank_node e else s.heap a)) [
      | none ↦ none
      | some h ↦ some (record {
        heap = h;
        fresh = s.fresh + 1;
        lvl = top;
        by_user = put s.by_user e.user s.fresh;
      })
    ]

-- `Update` behind the removal of the old node.
unfoldable pub insert : SkipList → Entry → ℕ → Option SkipList
insert s e lvl = elim (search_down s.lvl s.fresh s.heap e head no_preds) [
  | none ↦ none
  | some update ↦ put_in s e lvl update
]

unfoldable pub update : SkipList → UserId → ℤ → Draws → Option (SkipList × Draws)
update s user score ds = elim (remove s user) [
  | none ↦ none
  | some s' ↦ elim (insert s' (record { user = user; score = score }) (random_level ds).0) [
    | none ↦ none
    | some s'' ↦ some (s'', (random_level ds).1)
  ]
]

-- `for cur != nil && len(out) < n`
unfoldable pub collect : ℕ → Heap → Option Ptr → List Entry
collect zero h cur = []
collect (suc n) h none = []
collect (suc n) h (some p) = (h p).e ∷ collect n h ((h p).next 0)

unfoldable pub top_n : SkipList → ℤ → List Entry
top_n s (pos n) = collect n s.heap ((s.heap head).next 0)
top_n s (negsuc _) = []

unfoldable pub get_entry : SkipList → UserId → Option Entry
get_entry s user = elim (get s.by_user user) [ none ↦ none | some n ↦ some (s.heap n).e ]
