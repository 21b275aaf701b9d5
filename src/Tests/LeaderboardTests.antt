-- ===== src/Tests/LeaderboardTests.antt =====
-- The theorems on leaderboard/ at concrete inputs.
use gamifykit.Prelude.{ℕ, ◌≡◌, ◌≤◌, refl, Option, none, some, List, [], ◌∷◌, take}
use gamifykit.Prelude.Int.{ℤ, pos, negsuc}
use gamifykit.Prelude.GoMap.{get}
use gamifykit.Prelude.Text.{text, text_key}
use gamifykit.Core.{UserId}
use gamifykit.Leaderboard.Entry.{Entry}
use gamifykit.Leaderboard.SkipList.{
  SkipList, Draws, new_skip_list, random_level, update, remove, top_n, get_entry, max_level,
}
use gamifykit.Leaderboard.SkipList.Board.{
  Represents, new_skip_list-Represents, place, drop_user, IsRanked,
}
use gamifykit.Leaderboard.SkipList.Board.Removal.{remove-Represents}
use gamifykit.Leaderboard.SkipList.Board.Insertion.{update-Represents}
use gamifykit.Leaderboard.Calls.{
  Call, call_update, call_remove, run_calls, board_after, last_entry, run_calls_board,
}

abbrev alice : UserId
alice = text "alice"

abbrev bob : UserId
bob = text "bob"

-- A draw for a node of four levels, then one for a node of one level.
abbrev draws : Draws
draws = some 64 ∷ some 1 ∷ some 5 ∷ []

abbrev season : List Call
season =
    call_update alice (pos 10)
    ∷ call_update bob (pos 10)
    ∷ call_update alice (negsuc 4)
    ∷ call_update bob (pos 30)
    ∷ call_update alice (pos 31)
    ∷ call_remove bob
    ∷ []

abbrev scores : Option SkipList → List Entry
scores none = []
scores (some s) = top_n s (pos 9)

tall_node : (random_level draws).0 ≡ 4
unfolding random_level gamifykit.Leaderboard.SkipList.random_uint64
    gamifykit.Leaderboard.SkipList.level_loop
tall_node = refl

bob_leads :
    scores (run_calls (take 4 season) new_skip_list draws)
    ≡ record { user = bob; score = pos 30 } ∷ record { user = alice; score = negsuc 4 } ∷ []
unfolding run_calls update remove get new_skip_list gamifykit.Prelude.GoMap.put
    gamifykit.Prelude.GoMap.delete gamifykit.Prelude.Text.Text-discrete
    gamifykit.Prelude.Int.ℤ-discrete gamifykit.Prelude.ℕ_discrete top_n
    gamifykit.Leaderboard.SkipList.insert gamifykit.Leaderboard.SkipList.search_down
    gamifykit.Leaderboard.SkipList.walk gamifykit.Leaderboard.SkipList.put_in
    gamifykit.Leaderboard.SkipList.link gamifykit.Leaderboard.SkipList.random_uint64
    gamifykit.Leaderboard.SkipList.level_loop gamifykit.Leaderboard.SkipList.raise
    gamifykit.Leaderboard.SkipList.set_next gamifykit.Leaderboard.SkipList.remove_locked
    gamifykit.Leaderboard.SkipList.shrink gamifykit.Leaderboard.SkipList.take_out
    gamifykit.Leaderboard.SkipList.unlink gamifykit.Leaderboard.SkipList.collect random_level
    gamifykit.Leaderboard.Entry.less gamifykit.Leaderboard.Entry.text_ltb
bob_leads = refl

alice_alone :
    scores (run_calls season new_skip_list draws) ≡ record { user = alice; score = pos 31 } ∷ []
unfolding run_calls update remove get new_skip_list gamifykit.Prelude.GoMap.put
    gamifykit.Prelude.GoMap.delete gamifykit.Prelude.Text.Text-discrete
    gamifykit.Prelude.Int.ℤ-discrete gamifykit.Prelude.ℕ_discrete top_n
    gamifykit.Leaderboard.SkipList.insert gamifykit.Leaderboard.SkipList.search_down
    gamifykit.Leaderboard.SkipList.walk gamifykit.Leaderboard.SkipList.put_in
    gamifykit.Leaderboard.SkipList.link gamifykit.Leaderboard.SkipList.random_uint64
    gamifykit.Leaderboard.SkipList.level_loop gamifykit.Leaderboard.SkipList.raise
    gamifykit.Leaderboard.SkipList.set_next gamifykit.Leaderboard.SkipList.remove_locked
    gamifykit.Leaderboard.SkipList.shrink gamifykit.Leaderboard.SkipList.take_out
    gamifykit.Leaderboard.SkipList.unlink gamifykit.Leaderboard.SkipList.collect random_level
    gamifykit.Leaderboard.Entry.less gamifykit.Leaderboard.Entry.text_ltb
alice_alone = refl

run_calls_board_example :
    (s : SkipList) × (run_calls season new_skip_list draws ≡ some s)
    × ((n : ℕ) → top_n s (pos n) ≡ take n (board_after season []))
    × IsRanked (board_after season [])
    × ((u : UserId) → get_entry s u ≡ last_entry season u none)
run_calls_board_example = run_calls_board season draws

abbrev alice_entry : Entry
alice_entry = record { user = alice; score = pos 10 }

abbrev one_user :
    (s : SkipList) × (ds : Draws) × (update new_skip_list alice (pos 10) draws ≡ some (s, ds))
    × Represents s (place alice_entry (drop_user alice []))
one_user = update-Represents new_skip_list-Represents alice (pos 10) draws

update-Represents_example :
    (s : SkipList) × (ds : Draws) × (update one_user.0 bob (pos 20) draws ≡ some (s, ds))
    × Represents s (
        place
          (record { user = bob; score = pos 20 })
          (drop_user bob (place alice_entry (drop_user alice []))))
update-Represents_example = update-Represents one_user.3 bob (pos 20) draws

remove-Represents_example :
    (s : SkipList) × (remove one_user.0 alice ≡ some s)
    × (get s.by_user alice ≡ none)
    × Represents s (drop_user alice (place alice_entry (drop_user alice [])))
remove-Represents_example = remove-Represents one_user.3 alice
