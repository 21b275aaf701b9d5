-- ===== src/Stores/Memory.antt =====
-- adapters/memory/storage.go. The map of pointers to records is a table; the lock of a record is
-- held through each method, so that a method is one step.
pub mod Keeps
use gamifykit.Prelude.{[], Option, none, some, Result, ok, err}
use gamifykit.Prelude.Int.{ℤ, pos}
use gamifykit.Prelude.GoMap.{GoMap, get, get_or, put}
use gamifykit.Prelude.Text.{text_key}
use gamifykit.Core.{UserId, Metric, Badge, Time, Error, UserState}
use gamifykit.Core.Arith.{add_safe}
use gamifykit.Core.Clone.{clone}
use gamifykit.Engine.Storage.{Storage}
use gamifykit.Stores.Table.{Table, new_user}

unfoldable pub get_or_create : Table → UserId → Time → UserState × Table
get_or_create users user now = elim (get users user) [
  | some rec ↦ (rec, users)
  | none ↦ (new_user user now, put users user (new_user user now))
]

unfoldable pub add_points : Table → Time → UserId → Metric → ℤ → Result Error ℤ × Table
add_points users now user metric delta =
    let (rec, users') = get_or_create users user now in
    elim (add_safe (get_or rec.points metric (pos 0)) delta) [
      | err e ↦ (err e, users')
      | ok next ↦ (
        ok next,
        put users' user (record rec { points = put rec.points metric next; updated = now }),
      )
    ]

unfoldable pub award_badge : Table → Time → UserId → Badge → Option Error × Table
award_badge users now user badge =
    let (rec, users') = get_or_create users user now in
    (none, put users' user (record rec { badges = put rec.badges badge tt; updated = now }))

unfoldable pub get_state : Table → Time → UserId → Result Error UserState × Table
get_state users now user =
    let (rec, users') = get_or_create users user now in (ok (clone rec), users')

unfoldable pub set_level : Table → Time → UserId → Metric → ℤ → Option Error × Table
set_level users now user metric level =
    let (rec, users') = get_or_create users user now in
    (none, put users' user (record rec { levels = put rec.levels metric level; updated = now }))

abbrev pub memory_storage : Storage
memory_storage = record {
  State = Table;
  add_points = add_points;
  award_badge = award_badge;
  get_state = get_state;
  set_level = set_level;
}
