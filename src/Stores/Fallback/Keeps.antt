-- ===== src/Stores/Fallback/Keeps.antt =====
-- The fallback storage keeps the contract of a storage, and refuses nothing but sums.
use gamifykit.Prelude.{◌≡◌, Option-cases, inl, inr, List, [], none, ok}
use gamifykit.Prelude.Int.{ℤ}
use gamifykit.Prelude.GoMap.{get}
use gamifykit.Prelude.Text.{text_key}
use gamifykit.Core.{UserId, Metric, Badge, Time, UserState}
use gamifykit.Core.Arith.{add_safe}
use gamifykit.Engine.Storage.{Contract, shown}
use gamifykit.Engine.Storage.History.{StorageCall, run_calls, meant_all, no_profiles, run_calls_lem}
use gamifykit.Engine.Service.Levels.{IsReliable}
use gamifykit.Stores.Table.{Table, Finds, find_existing-Finds, find_new-Finds}
use gamifykit.Stores.Table.Backend.{table_contract, table-IsReliable, table-IsExact}
use gamifykit.Stores.Fallback.{
  zero_time, ensure, add_points, award_badge, get_state, set_level, fallback_storage,
}

pub ensure-Finds : (t : Table) (u : UserId) (now : Time) → Finds t u (ensure t u).0 (ensure t u).1
unfolding ensure
ensure-Finds t u now = elim (Option-cases (get t u)) [
  | inl h ↦ rw (h, ensure) (find_new-Finds t u zero_time h)
  | inr (st, h) ↦ rw (h, ensure) (find_existing-Finds t u st h)
]

unfoldable pub fallback_contract : Contract fallback_storage
unfolding add_points award_badge get_state set_level
fallback_contract = table_contract (λ t u now. ensure t u) (λ now rec. rec.updated) ensure-Finds

-- The answers of the fallback storage of gamify.New behind any history of calls, from the empty table on: a
-- reading shows the profile that the calls were meant to make, an addition returns the sum by
-- AddSafe or its error, and an award and a level write succeed.
pub fallback-run_calls :
    (cs : List (Time × StorageCall)) (now : Time) (u : UserId) (m : Metric) (d n : ℤ) (b : Badge)
    → let s = run_calls fallback_storage [] cs in
      let p = meant_all cs no_profiles u in
      ((shot : UserState) × ((get_state s now u).0 ≡ ok shot)
        × (shot.user_id ≡ u)
        × (shown shot ≡ p))
      × ((add_points s now u m d).0 ≡ add_safe (p.points m) d)
      × ((award_badge s now u b).0 ≡ none)
      × ((set_level s now u m n).0 ≡ none)
unfolding fallback_contract add_points award_badge get_state set_level
fallback-run_calls =
    run_calls_lem fallback_contract []
      (table-IsExact (λ t u now. ensure t u) (λ now rec. rec.updated) ensure-Finds)

-- Its reads and level writes return no error.
pub fallback-IsReliable : IsReliable fallback_storage
unfolding add_points award_badge get_state set_level
fallback-IsReliable = table-IsReliable (λ t u now. ensure t u) (λ now rec. rec.updated)
