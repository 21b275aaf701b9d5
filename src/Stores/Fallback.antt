-- ===== src/Stores/Fallback.antt =====
-- The storage that gamify/gamify.go falls back on: `inMemoryFallback` over `memStore`. It stamps no
-- time. The nil map before the first call is the empty table.
pub mod Keeps
use gamifykit.Prelude.{[], Option, none, some, Result, ok, err}
use gamifykit.Prelude.Int.{ℤ, pos}
use gamifykit.Prelude.GoMap.{get, get_or, put}
use gamifykit.Prelude.Text.{text_key}
use gamifykit.Core.{UserId, Metric, Badge, Time, Error, UserState}
use gamifykit.Core.Arith.{add_safe}
use gamifykit.Core.Clone.{clone}
use gamifykit.Engine.Storage.{Storage}
use gamifykit.Stores.Table.{Table, new_user}

-- The zero `time.Time` of a new record.
abbrev pub zero_time : Time
zero_time = 0

unfoldable pub ensure : Table → UserId → UserState × Table
ensure store u = elim (get store u) [
  | some st ↦ (st, store)
  | none ↦ (new_user u zero_time, put store u (new_user u zero_time))
]

unfoldable pub add_points : Table → Time → UserId → Metric → ℤ → Result Error ℤ × Table
add_points store now u metric d =
    let (st, store') = ensure store u in
    elim (add_safe (get_or st.points metric (pos 0)) d) [
      | err e ↦ (err e, store')
      | ok next ↦ (ok next, put store' u (record st { points = put st.points metric next }))
    ]

unfoldable pub award_badge : Table → Time → UserId → Badge → Option Error × Table
award_badge store now u b =
    let (st, store') = ensure store u in
    (none, put store' u (record st { badges = put st.badges b tt }))

unfoldable pub get_state : Table → Time → UserId → Result Error UserState × Table
get_state store now u = let (st, store') = ensure store u in (ok (clone st), store')

unfoldable pub set_level : Table → Time → UserId → Metric → ℤ → Option Error × Table
set_level store now u metric lvl =
    let (st, store') = ensure store u in
    (none, put store' u (record st { levels = put st.levels metric lvl }))

abbrev pub fallback_storage : Storage
fallback_storage = record {
  State = Table;
  add_points = add_points;
  award_badge = award_badge;
  get_state = get_state;
  set_level = set_level;
}
