-- ===== src/Leaderboard/SkipList/Board/Splicing.antt =====
-- A node put between the nodes that rank before it and those that do not.
use gamifykit.Prelude.{◌≡◌, ◌≢◌, refl, arith, [], ◌∷◌, ◌++◌, some, true, ite}
use gamifykit.Prelude.Text.{Text-discrete, text_key}
use gamifykit.Core.{UserId}
use gamifykit.Leaderboard.Entry.{less}
use gamifykit.Leaderboard.SkipList.{Ptr, Heap}
use gamifykit.Leaderboard.SkipList.Chains.{Addrs, All, Ranked, Below, NotBelow, last_of, All-map}
use gamifykit.Leaderboard.SkipList.Board.{find_user, OneEach, entries, place}
use gamifykit.Leaderboard.SkipList.Board.Cuts.{All-add}

pub Ranked-add :
    (h : Heap) (p : Ptr) (lo hi : Addrs)
    → Below h (h p).e lo
    → All (λ b. less (h p).e (h b).e ≡ true) hi
    → Ranked h (lo ++ hi)
    → Ranked h (lo ++ p ∷ hi)
Ranked-add h p [] hi below above r = (above, r)
Ranked-add h p (a ∷ lo) hi below above r =
    (All-add _ p lo hi below.0 r.0, Ranked-add h p lo hi below.1 above r.1)

pub OneEach-add :
    (h : Heap) (p : Ptr) (lo hi : Addrs)
    → All (λ a. (h a).e.user ≢ (h p).e.user) (lo ++ hi)
    → OneEach h (lo ++ hi)
    → OneEach h (lo ++ p ∷ hi)
OneEach-add h p [] hi new one = (All-map _ _ hi (λ b n e. ground arith) new, one)
OneEach-add h p (a ∷ lo) hi new one =
    (All-add _ p lo hi new.0 one.0, OneEach-add h p lo hi new.1 one.1)

pub find_user_add :
    (h : Heap) (p : Ptr) (lo hi : Addrs) (v : UserId)
    → All (λ a. (h a).e.user ≢ (h p).e.user) (lo ++ hi)
    → find_user h v (lo ++ p ∷ hi)
      ≡ ite (Text-discrete (h p).e.user v) (some p) (find_user h v (lo ++ hi))
find_user_add h p [] hi v new = refl
find_user_add h p (a ∷ lo) hi v new = ground (arith, find_user_add h p lo hi v new.1, new.0)

pub place_cut :
    (h : Heap) (p : Ptr) (lo hi : Addrs)
    → Below h (h p).e lo
    → NotBelow h (h p).e hi
    → place (h p).e (entries h (lo ++ hi)) ≡ entries h (lo ++ p ∷ hi)
place_cut h p [] [] below above = refl
place_cut h p [] (b ∷ hi) below above = ground (arith, above.0)
place_cut h p (a ∷ lo) hi below above = ground (arith, below.0, place_cut h p lo hi below.1 above)

pub last_of-All : (P : Ptr → Type 0) (p : Ptr) (xs : Addrs) → P p → All P xs → P (last_of p xs)
last_of-All P p [] h k = h
last_of-All P p (a ∷ xs) h k = last_of-All P a xs k.0 k.1
