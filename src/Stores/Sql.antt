-- ===== src/Stores/Sql.antt =====
-- The operations of adapters/sqlx/storage.go over a database. A transaction that is left before its
-- commit is rolled back, which is the deferred `tx.Rollback`.
pub mod Outcomes
pub mod Additions
pub mod Reading
pub mod Answers
use gamifykit.Prelude.{
  ◌≡◌, Bool, true, false, ◌&&◌, ◌||◌, List, [], ◌∷◌, ◌++◌, Option, none, some, Result, ok, err, ite,
  if◌then◌else◌,
}
use gamifykit.Prelude.Int.{ℤ, pos, ltb_ℤ, add64, ℤ-discrete}
use gamifykit.Prelude.GoMap.{GoMap, put}
use gamifykit.Prelude.Text.{Text, text, text_key}
use gamifykit.Core.{UserId, Metric, Badge, Time, Error, backend, delta_zero, UserState}
use gamifykit.Config.Types.{Driver, postgres, mysql}
use gamifykit.Stores.Database.{Placeholders, numbered, question_marks, Rows, Database}

-- `fmt.Errorf` with `%w` at the end
abbrev pub wrapped : Text → Text → Error
wrapped what e = backend (what ++ e)

abbrev pub sql_overflow : Error
sql_overflow = backend (text "integer overflow in AddPoints")

-- The placeholders of the query that the store picks.
abbrev pub placeholders : Driver → Placeholders
placeholders postgres = numbered
placeholders mysql = question_marks

-- `currentPoints.Int64`
abbrev pub or_zero : Option ℤ → ℤ
or_zero none = pos 0
or_zero (some n) = n

-- A loop over rows that puts each scanned row into a map. The error of the reading itself,
-- `rows.Err`, is not looked at.
unfoldable pub scan_rows :
    {A B : Type 0}
    → (A → Text × B)
    → Text
    → List (Result Text A)
    → GoMap Text B
    → Result Error (GoMap Text B)
scan_rows entry what [] m = ok m
scan_rows entry what (err e ∷ rows) m = err (wrapped what e)
scan_rows entry what (ok x ∷ rows) m = scan_rows entry what rows (put m (entry x).0 (entry x).1)

module _ (db : Database) (driver : Driver) where
  abbrev ph : Placeholders
  ph = placeholders driver

  -- The insertion of a row, or the update of the row that is there.
  unfoldable pub write_points : db.Tx → Time → UserId → Metric → Option ℤ → ℤ → Option Text × db.Tx
  write_points tx now user metric (some _) n = db.update_points ph tx n now user metric
  write_points tx now user metric none n = db.insert_points ph tx user metric n now now

  unfoldable pub commit_points : db.Tx → ℤ → Result Error ℤ × db.State
  commit_points tx n =
      let (failed, s) = db.commit tx in
      (
        elim failed [
          | none ↦ ok n
          | some e ↦ err (wrapped (text "failed to commit transaction: ") e)
        ],
        s,
      )

  -- `AddPoints` behind the reading of the balance.
  unfoldable pub add_to : db.Tx → Time → UserId → Metric → Option ℤ → ℤ → Result Error ℤ × db.State
  add_to tx now user metric current delta =
      let old = or_zero current in
      let new_points = add64 old delta in
      if (ltb_ℤ (pos 0) delta && ltb_ℤ new_points old)
        || (ltb_ℤ delta (pos 0) && ltb_ℤ old new_points)
      then (err sql_overflow, db.rollback tx)
      else (let (failed, tx') = write_points tx now user metric current new_points in
          elim failed [
            | none ↦ commit_points tx' new_points
            | some e ↦ (err (wrapped (text "failed to update points: ") e), db.rollback tx')
          ])

  -- `AddPoints` behind the check of the delta.
  unfoldable pub add_in_transaction :
      db.State → Time → UserId → Metric → ℤ → Result Error ℤ × db.State
  add_in_transaction s now user metric delta = elim (db.begin s) [
    | err (e, s') ↦ (err (wrapped (text "failed to begin transaction: ") e), s')
    | ok tx ↦
        let (found, tx') = db.select_points ph tx user metric in
        elim found [
          | err e ↦ (err (wrapped (text "failed to get current points: ") e), db.rollback tx')
          | ok current ↦ add_to tx' now user metric current delta
        ]
  ]

  unfoldable pub add_points : db.State → Time → UserId → Metric → ℤ → Result Error ℤ × db.State
  add_points s now user metric delta =
      ite (ℤ-discrete delta (pos 0)) (err delta_zero, s)
        (add_in_transaction s now user metric delta)

  -- `return tx.Commit()`
  abbrev pub commit_last : db.Tx → Option Error × db.State
  commit_last tx =
      let (failed, s) = db.commit tx in (elim failed [ none ↦ none | some e ↦ some (backend e) ], s)

  -- What follows a statement that changes a row.
  unfoldable pub finish : Text → Option Text × db.Tx → Option Error × db.State
  finish what (none, tx) = commit_last tx
  finish what (some e, tx) = (some (wrapped what e), db.rollback tx)

  unfoldable pub award_badge : db.State → Time → UserId → Badge → Option Error × db.State
  award_badge s now user badge = elim (db.begin s) [
    | err (e, s') ↦ (some (wrapped (text "failed to begin transaction: ") e), s')
    | ok tx ↦
        let (found, tx') = db.exists_badge ph tx user badge in
        elim found [
          | err e ↦ (some (wrapped (text "failed to check badge existence: ") e), db.rollback tx')
          | ok true ↦ commit_last tx'
          | ok false ↦
              finish (text "failed to award badge: ") (db.insert_badge ph tx' user badge now)
        ]
  ]

  unfoldable pub set_level : db.State → Time → UserId → Metric → ℤ → Option Error × db.State
  set_level s now user metric level = elim (db.begin s) [
    | err (e, s') ↦ (some (wrapped (text "failed to begin transaction: ") e), s')
    | ok tx ↦
        let (found, tx') = db.exists_level ph tx user metric in
        elim found [
          | err e ↦ (some (wrapped (text "failed to check level existence: ") e), db.rollback tx')
          | ok true ↦
              finish (text "failed to set level: ") (db.update_level ph tx' level now user metric)
          | ok false ↦
              finish (text "failed to set level: ")
                (db.insert_level ph tx' user metric level now now)
        ]
  ]

  unfoldable pub read_levels : UserState → db.State → Result Error UserState
  read_levels state s = elim (db.query_levels ph s state.user_id) [
    | err e ↦ err (wrapped (text "failed to get levels: ") e)
    | ok rows ↦
        elim (scan_rows (λ x. x) (text "failed to scan level: ") rows.scanned state.levels) [
          | err e ↦ err e
          | ok levels ↦ ok (record state { levels = levels })
        ]
  ]

  unfoldable pub read_badges : UserState → db.State → Result Error UserState
  read_badges state s = elim (db.query_badges ph s state.user_id) [
    | err e ↦ err (wrapped (text "failed to get badges: ") e)
    | ok rows ↦
        elim (scan_rows (λ b. (b, tt)) (text "failed to scan badge: ") rows.scanned state.badges) [
          | err e ↦ err e
          | ok badges ↦ read_levels (record state { badges = badges }) s
        ]
  ]

  unfoldable pub get_state : db.State → Time → UserId → Result Error UserState
  get_state s now user =
      let state : UserState = record {
        user_id = user;
        points = [];
        badges = [];
        levels = [];
        updated = now;
      } in
      elim (db.query_points ph s user) [
        | err e ↦ err (wrapped (text "failed to get points: ") e)
        | ok rows ↦
            elim (scan_rows (λ x. x) (text "failed to scan points: ") rows.scanned state.points) [
              | err e ↦ err e
              | ok points ↦ read_badges (record state { points = points }) s
            ]
      ]
