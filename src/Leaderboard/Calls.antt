-- ===== src/Leaderboard/Calls.antt =====
-- Sequences of calls on a board of leaderboard/leaderboard.go: what the skip list does with them,
-- next to what they do to a sorted list and to a map from users to entries.
use gamifykit.Prelude.{
  ℕ, ◌≡◌, ◌≢◌, refl, ◌∙◌, sym, subst, arith, List, [], ◌∷◌, Option, none, some, Bool-cases, inl,
  inr, ite, if_pos, if_neg, take,
}
use gamifykit.Prelude.Int.{ℤ, pos}
use gamifykit.Prelude.Text.{Text-discrete}
use gamifykit.Core.{UserId}
use gamifykit.Leaderboard.Entry.{Entry, less}
use gamifykit.Leaderboard.SkipList.{
  SkipList, Draws, new_skip_list, update, remove, top_n, get_entry,
}
use gamifykit.Leaderboard.SkipList.Board.{
  Represents, find_entry, drop_user, place, IsRanked, new_skip_list-Represents, entries-IsRanked,
  get_entry-find_entry, top_n-take,
}
use gamifykit.Leaderboard.SkipList.Board.Removal.{remove-Represents}
use gamifykit.Leaderboard.SkipList.Board.Insertion.{update-Represents}

pub data Call : Type 0 where
  call_update : UserId → ℤ → Call
  call_remove : UserId → Call

-- The calls of a client, one after the other.
unfoldable pub run_calls : List Call → SkipList → Draws → Option SkipList
run_calls [] s ds = some s
run_calls (call_update u score ∷ calls) s ds = elim (update s u score ds) [
  | none ↦ none
  | some (s', ds') ↦ run_calls calls s' ds'
]
run_calls (call_remove u ∷ calls) s ds = elim (remove s u) [
  | none ↦ none
  | some s' ↦ run_calls calls s' ds
]

-- The same calls on a sorted list.
unfoldable pub board_after : List Call → List Entry → List Entry
board_after [] l = l
board_after (call_update u score ∷ calls) l =
    board_after calls (place (record { user = u; score = score }) (drop_user u l))
board_after (call_remove u ∷ calls) l = board_after calls (drop_user u l)

-- What the last call on a user leaves for the user, who had `before`.
unfoldable pub last_entry : List Call → UserId → Option Entry → Option Entry
last_entry [] v before = before
last_entry (call_update u score ∷ calls) v before =
    last_entry calls v (ite (Text-discrete u v) (some (record { user = u; score = score })) before)
last_entry (call_remove u ∷ calls) v before =
    last_entry calls v (ite (Text-discrete u v) none before)

-- No user has two entries.
abbrev NoneOf : UserId → List Entry → Type 0
NoneOf u [] = Unit
NoneOf u (x ∷ l) = (x.user ≢ u) × NoneOf u l

abbrev IsOneEach : List Entry → Type 0
IsOneEach [] = Unit
IsOneEach (x ∷ l) = NoneOf x.user l × IsOneEach l

NoneOf-find_entry : (u : UserId) (l : List Entry) → NoneOf u l → find_entry u l ≡ none
NoneOf-find_entry u [] h = refl
NoneOf-find_entry u (x ∷ l) h = ground (arith, h.0, NoneOf-find_entry u l h.1)

NoneOf-drop_user : (u v : UserId) (l : List Entry) → NoneOf u l → NoneOf u (drop_user v l)
NoneOf-drop_user u v [] h = tt
NoneOf-drop_user u v (x ∷ l) h = elim (Text-discrete x.user v) [
  | yes y ↦ rw (if_pos (Text-discrete x.user v) y) (h.1)
  | no n ↦ rw (if_neg (Text-discrete x.user v) n) (h.0, NoneOf-drop_user u v l h.1)
]

drop_user-NoneOf : (u : UserId) (l : List Entry) → IsOneEach l → NoneOf u (drop_user u l)
drop_user-NoneOf u [] one = tt
drop_user-NoneOf u (x ∷ l) one = elim (Text-discrete x.user u) [
  | yes y ↦ rw (if_pos (Text-discrete x.user u) y) (subst (λ v. NoneOf v l) y one.0)
  | no n ↦ rw (if_neg (Text-discrete x.user u) n) (n, drop_user-NoneOf u l one.1)
]

NoneOf-place :
    (u : UserId) (e : Entry) (l : List Entry) → e.user ≢ u → NoneOf u l → NoneOf u (place e l)
NoneOf-place u e [] n h = (n, tt)
NoneOf-place u e (x ∷ l) n h = elim (Bool-cases (less x e)) [
  | inl b ↦ rw b (h.0, NoneOf-place u e l n h.1)
  | inr b ↦ rw b (n, h)
]

IsOneEach-drop_user : (u : UserId) (l : List Entry) → IsOneEach l → IsOneEach (drop_user u l)
IsOneEach-drop_user u [] one = tt
IsOneEach-drop_user u (x ∷ l) one = elim (Text-discrete x.user u) [
  | yes y ↦ rw (if_pos (Text-discrete x.user u) y) (one.1)
  | no n ↦
      rw (if_neg (Text-discrete x.user u) n)
        (NoneOf-drop_user x.user u l one.0, IsOneEach-drop_user u l one.1)
]

IsOneEach-place :
    (e : Entry) (l : List Entry) → NoneOf e.user l → IsOneEach l → IsOneEach (place e l)
IsOneEach-place e [] h one = (tt, tt)
IsOneEach-place e (x ∷ l) h one = elim (Bool-cases (less x e)) [
  | inl b ↦ rw b (NoneOf-place x.user e l (λ k. h.0 (sym k)) one.0, IsOneEach-place e l h.1 one.1)
  | inr b ↦ rw b (h, one)
]

find_entry-drop_user :
    (u v : UserId) (l : List Entry)
    → IsOneEach l
    → find_entry v (drop_user u l) ≡ ite (Text-discrete u v) none (find_entry v l)
find_entry-drop_user u v [] one = ground arith
find_entry-drop_user u v (x ∷ l) one =
    ground (arith, find_entry-drop_user u v l one.1, NoneOf-find_entry x.user l one.0)

find_entry-place :
    (e : Entry) (v : UserId) (l : List Entry)
    → NoneOf e.user l
    → find_entry v (place e l) ≡ ite (Text-discrete e.user v) (some e) (find_entry v l)
find_entry-place e v [] h = refl
find_entry-place e v (x ∷ l) h = ground (arith, h.0, find_entry-place e v l h.1)

find_entry-board_after :
    (calls : List Call) (l : List Entry) (v : UserId)
    → IsOneEach l
    → find_entry v (board_after calls l) ≡ last_entry calls v (find_entry v l)
unfolding board_after last_entry
find_entry-board_after [] l v one = refl
find_entry-board_after (call_update u score ∷ calls) l v one =
    let e : Entry = record { user = u; score = score } in
    let gone = drop_user-NoneOf u l one in
    let rest =
      find_entry-board_after calls (place e (drop_user u l)) v
        (IsOneEach-place e (drop_user u l) gone (IsOneEach-drop_user u l one)) in
    ground (arith, rest, find_entry-place e v (drop_user u l) gone, find_entry-drop_user u v l one)
find_entry-board_after (call_remove u ∷ calls) l v one = ground (
  arith,
  find_entry-board_after calls (drop_user u l) v (IsOneEach-drop_user u l one),
  find_entry-drop_user u v l one,
)

run_calls-Represents :
    (calls : List Call) (s : SkipList) (l : List Entry) (ds : Draws)
    → Represents s l
    → (s' : SkipList) × (run_calls calls s ds ≡ some s') × Represents s' (board_after calls l)
unfolding run_calls board_after
run_calls-Represents [] s l ds r = (s, refl, r)
run_calls-Represents (call_update u score ∷ calls) s l ds r =
    let (s1, ds1, e1, r1) = update-Represents r u score ds in
    let (s2, e2, r2) = run_calls-Represents calls s1 _ ds1 r1 in (s2, ground (arith, e1, e2), r2)
run_calls-Represents (call_remove u ∷ calls) s l ds r =
    let (s1, e1, gone, r1) = remove-Represents r u in
    let (s2, e2, r2) = run_calls-Represents calls s1 _ ds r1 in (s2, ground (arith, e1, e2), r2)

-- Any calls on a new skip list all return, whatever levels are drawn, and the list that they leave
-- shows a board: `TopN` the first entries of the sorted list that the same calls make, each ranked
-- before those behind it, and `Get` for each user what the last call on the user left.
pub run_calls_board :
    (calls : List Call) (ds : Draws)
    → (s : SkipList) × (run_calls calls new_skip_list ds ≡ some s)
      × ((n : ℕ) → top_n s (pos n) ≡ take n (board_after calls []))
      × IsRanked (board_after calls [])
      × ((u : UserId) → get_entry s u ≡ last_entry calls u none)
run_calls_board calls ds =
    let (s, e, r) = run_calls-Represents calls new_skip_list [] ds new_skip_list-Represents in
    (
      s,
      e,
      top_n-take r,
      subst IsRanked (sym r.shown) (entries-IsRanked s.heap r.order r.ranked),
      λ u. get_entry-find_entry r u ∙ find_entry-board_after calls [] u tt,
    )
