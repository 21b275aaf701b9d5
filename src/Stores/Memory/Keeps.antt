-- ===== src/Stores/Memory/Keeps.antt =====
-- The in-memory backend keeps the contract of a storage, and refuses nothing but sums.
use gamifykit.Prelude.{◌≡◌, Option-cases, inl, inr, List, [], none, ok}
use gamifykit.Prelude.Int.{ℤ}
use gamifykit.Prelude.GoMap.{get}
use gamifykit.Prelude.Text.{text_key}
use gamifykit.Core.{UserId, Metric, Badge, Time, UserState}
use gamifykit.Core.Arith.{add_safe}
use gamifykit.Engine.Storage.{Contract, shown}
use gamifykit.Engine.Storage.History.{StorageCall, run_calls, meant_all, no_profiles, run_calls_lem}
use gamifykit.Engine.Service.Levels.{IsReliable}
use gamifykit.Stores.Table.{Table, Finds, find_existing-Finds, find_new-Finds}
use gamifykit.Stores.Table.Backend.{table_contract, table-IsReliable, table-IsExact}
use gamifykit.Stores.Memory.{
  get_or_create, add_points, award_badge, get_state, set_level, memory_storage,
}

pub get_or_create-Finds :
    (t : Table) (u : UserId) (now : Time)
    → Finds t u (get_or_create t u now).0 (get_or_create t u now).1
unfolding get_or_create
get_or_create-Finds t u now = elim (Option-cases (get t u)) [
  | inl h ↦ rw (h, get_or_create) (find_new-Finds t u now h)
  | inr (st, h) ↦ rw (h, get_or_create) (find_existing-Finds t u st h)
]

unfoldable pub memory_contract : Contract memory_storage
unfolding add_points award_badge get_state set_level
memory_contract = table_contract get_or_create (λ now rec. now) get_or_create-Finds

-- The answers of the in-memory backend behind any history of calls, from the empty table on: a
-- reading shows the profile that the calls were meant to make, an addition returns the sum by
-- AddSafe or its error, and an award and a level write succeed.
pub memory-run_calls :
    (cs : List (Time × StorageCall)) (now : Time) (u : UserId) (m : Metric) (d n : ℤ) (b : Badge)
    → let s = run_calls memory_storage [] cs in
      let p = meant_all cs no_profiles u in
      ((shot : UserState) × ((get_state s now u).0 ≡ ok shot)
        × (shot.user_id ≡ u)
        × (shown shot ≡ p))
      × ((add_points s now u m d).0 ≡ add_safe (p.points m) d)
      × ((award_badge s now u b).0 ≡ none)
      × ((set_level s now u m n).0 ≡ none)
unfolding memory_contract add_points award_badge get_state set_level
memory-run_calls =
    run_calls_lem memory_contract []
      (table-IsExact get_or_create (λ now rec. now) get_or_create-Finds)

-- Its reads and level writes return no error.
pub memory-IsReliable : IsReliable memory_storage
unfolding add_points award_badge get_state set_level
memory-IsReliable = table-IsReliable get_or_create (λ now rec. now)
