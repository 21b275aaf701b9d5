-- ===== src/Tests/StoreTests.antt =====
-- The theorems on the backends at concrete inputs.
use gamifykit.Prelude.{◌≡◌, refl, arith, none, some, List, [], ◌∷◌, ok, err, ite, true}
use gamifykit.Prelude.Int.{ℤ, pos, max_int64}
use gamifykit.Prelude.Text.{text, text_key}
use gamifykit.Core.{metric_xp, backend, Time, UserState}
use gamifykit.Core.Arith.{add_safe}
use gamifykit.Engine.Storage.{shown}
use gamifykit.Engine.Storage.History.{
  StorageCall, call_add_points, call_award_badge, call_get_state, call_set_level, run_calls,
  meant_all, no_profiles,
}
use gamifykit.Stores.Memory
use gamifykit.Stores.Memory.{memory_storage}
use gamifykit.Stores.Memory.Keeps.{memory-run_calls}
use gamifykit.Stores.Fallback
use gamifykit.Stores.Fallback.{fallback_storage}
use gamifykit.Stores.Fallback.Keeps.{fallback-run_calls}
use gamifykit.Stores.Table.{table_profile}
use gamifykit.Stores.JsonFile.{FileStore, new_store, persist, get_user, add_points}
use gamifykit.Stores.JsonFile.Durability.{add_points_durable, add_points_unwritten, Grown}
use gamifykit.Tests.Instances.{table_json}

abbrev empty_store : FileStore table_json
empty_store = record { users = []; file = none; faults = [] }

abbrev full_disk : FileStore table_json
full_disk = record { users = []; file = none; faults = true ∷ [] }

abbrev stored : FileStore table_json
stored = (add_points table_json empty_store 7 (text "bob") metric_xp (pos 5)).1

add_points_durable_example :
    (add_safe ((table_profile [] (text "bob")).points metric_xp) (pos 5) ≡ ok (pos 5))
    × Grown table_json empty_store 7 (text "bob") metric_xp (pos 5) (pos 5) stored.users
    × ((r : FileStore table_json) × (new_store table_json stored.file [] ≡ ok r)
        × Grown table_json empty_store 7 (text "bob") metric_xp (pos 5) (pos 5) r.users)
unfolding add_points persist get_user add_safe gamifykit.Prelude.Int.sub64
    gamifykit.Prelude.Int.wrap64 gamifykit.Prelude.Int.◌-ℤ◌ gamifykit.Prelude.GoMap.get
    gamifykit.Prelude.Int.add64 gamifykit.Prelude.Int.◌+ℤ◌
add_points_durable_example =
    add_points_durable table_json empty_store 7 (text "bob") metric_xp (pos 5) (pos 5) stored []
      refl

add_points_unwritten_example :
    (t : FileStore table_json) × (add_points table_json full_disk 7 (text "bob") metric_xp (pos 5)
      ≡ (err (backend table_json.io_error), t))
    × (t.file ≡ none)
    × Grown table_json full_disk 7 (text "bob") metric_xp (pos 5) (pos 5) t.users
unfolding table_profile add_safe gamifykit.Prelude.Int.sub64 gamifykit.Prelude.Int.wrap64
    gamifykit.Prelude.Int.◌-ℤ◌ gamifykit.Prelude.GoMap.get gamifykit.Prelude.Int.add64
    gamifykit.Prelude.Int.◌+ℤ◌
add_points_unwritten_example =
    add_points_unwritten table_json full_disk 7 (text "bob") metric_xp (pos 5) (pos 5) [] refl refl

-- Two additions, of which the second is beyond int64, an award, a level and a reading.
abbrev calls : List (Time × StorageCall)
calls =
    (1, call_add_points (text "bob") metric_xp (pos 5))
    ∷ (2, call_add_points (text "bob") metric_xp max_int64)
    ∷ (3, call_award_badge (text "bob") (text "early_bird"))
    ∷ (4, call_set_level (text "ann") metric_xp (pos 2))
    ∷ (5, call_get_state (text "eve"))
    ∷ []

memory-run_calls_example :
    let s = run_calls memory_storage [] calls in
    let p = meant_all calls no_profiles (text "bob") in
    ((shot : UserState) × ((Memory.get_state s 6 (text "bob")).0 ≡ ok shot)
      × (shot.user_id ≡ text "bob")
      × (shown shot ≡ p))
    × ((Memory.add_points s 6 (text "bob") metric_xp (pos 7)).0
        ≡ add_safe (p.points metric_xp) (pos 7))
    × ((Memory.award_badge s 6 (text "bob") (text "night_owl")).0 ≡ none)
    × ((Memory.set_level s 6 (text "bob") metric_xp (pos 3)).0 ≡ none)
memory-run_calls_example =
    memory-run_calls calls 6 (text "bob") metric_xp (pos 7) (pos 3) (text "night_owl")

fallback-run_calls_example :
    let s = run_calls fallback_storage [] calls in
    let p = meant_all calls no_profiles (text "ann") in
    ((shot : UserState) × ((Fallback.get_state s 6 (text "ann")).0 ≡ ok shot)
      × (shot.user_id ≡ text "ann")
      × (shown shot ≡ p))
    × ((Fallback.add_points s 6 (text "ann") metric_xp (pos 7)).0
        ≡ add_safe (p.points metric_xp) (pos 7))
    × ((Fallback.award_badge s 6 (text "ann") (text "night_owl")).0 ≡ none)
    × ((Fallback.set_level s 6 (text "ann") metric_xp (pos 3)).0 ≡ none)
fallback-run_calls_example =
    fallback-run_calls calls 6 (text "ann") metric_xp (pos 7) (pos 3) (text "night_owl")
