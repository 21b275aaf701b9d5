-- ===== src/Stores/Sql/Answers.antt =====
-- The SQL store on a database that answers: no call of the store fails but by its own checks.
use gamifykit.Engine.Storage.{is_some}
use gamifykit.Prelude.{
  ◌≡◌, ◌≢◌, false, inl, inr, refl, ap, sym, ◌∙◌, arith, Bool, Bool-cases, List, [], ◌∷◌, Option,
  none, some, Result, ok, err,
}
use gamifykit.Prelude.Int.{ℤ, pos, IsInt64, add64}
use gamifykit.Prelude.GoMap.{GoMap, put}
use gamifykit.Prelude.Text.{Text, text, text_key}
use gamifykit.Core.{UserId, Metric, Badge, Time, UserState, Error}
use gamifykit.Core.Arith.{add_safe}
use gamifykit.Config.Types.{Driver}
use gamifykit.Stores.Database.{Database, Behaves, Content, Placeholders, Rows, put_badge, put_level}
use gamifykit.Stores.Sql.{
  placeholders, or_zero, sql_overflow, scan_rows, write_points, add_points, award_badge, set_level,
  get_state, read_levels, read_badges, add_in_transaction, add_to, commit_points, finish,
}
use gamifykit.Stores.Sql.Outcomes.{Done, award_badge-Done, set_level-Done}
use gamifykit.Stores.Sql.Additions.{wraps_iff_refused}

abbrev pub AllScanned : {A : Type 0} → List (Result Text A) → Type 0
AllScanned [] = Unit
AllScanned {A = A} (r ∷ rows) = ((x : A) × (r ≡ ok x)) × AllScanned rows

-- Every statement succeeds, with the placeholders that the driver takes; an INSERT does where its
-- row is not there yet, since the keys of the tables are unique.
pub record Answers (db : Database) (b : Behaves db) (ph : Placeholders) : Type 0 where
  pub begins : (s : db.State) → (tx : db.Tx) × (db.begin s ≡ ok tx)
  pub commits : (tx : db.Tx) → (db.commit tx).0 ≡ none
  pub selects :
      (tx : db.Tx) (u : UserId) (m : Metric)
      → (r : Option ℤ) × ((db.select_points ph tx u m).0 ≡ ok r)
  pub updates_points :
      (tx : db.Tx) (n : ℤ) (now : Time) (u : UserId) (m : Metric)
      → (db.update_points ph tx n now u m).0 ≡ none
  pub inserts_points :
      (tx : db.Tx) (u : UserId) (m : Metric) (n : ℤ) (now : Time)
      → (b.view tx).points u m ≡ none
      → (db.insert_points ph tx u m n now now).0 ≡ none
  pub finds_badge :
      (tx : db.Tx) (u : UserId) (badge : Badge)
      → (r : Bool) × ((db.exists_badge ph tx u badge).0 ≡ ok r)
  pub inserts_badge :
      (tx : db.Tx) (u : UserId) (badge : Badge) (now : Time)
      → is_some ((b.view tx).badges u badge) ≡ false
      → (db.insert_badge ph tx u badge now).0 ≡ none
  pub finds_level :
      (tx : db.Tx) (u : UserId) (m : Metric) → (r : Bool) × ((db.exists_level ph tx u m).0 ≡ ok r)
  pub updates_level :
      (tx : db.Tx) (n : ℤ) (now : Time) (u : UserId) (m : Metric)
      → (db.update_level ph tx n now u m).0 ≡ none
  pub inserts_level :
      (tx : db.Tx) (u : UserId) (m : Metric) (n : ℤ) (now : Time)
      → is_some ((b.view tx).levels u m) ≡ false
      → (db.insert_level ph tx u m n now now).0 ≡ none
  pub shows_points :
      (s : db.State) (u : UserId)
      → (rows : Rows (Metric × ℤ)) × (db.query_points ph s u ≡ ok rows) × AllScanned rows.scanned
  pub shows_badges :
      (s : db.State) (u : UserId)
      → (rows : Rows Badge) × (db.query_badges ph s u ≡ ok rows) × AllScanned rows.scanned
  pub shows_levels :
      (s : db.State) (u : UserId)
      → (rows : Rows (Metric × ℤ)) × (db.query_levels ph s u ≡ ok rows) × AllScanned rows.scanned

scans :
    {A B : Type 0} (entry : A → Text × B) (what : Text) (rows : List (Result Text A))
    (before : GoMap Text B)
    → AllScanned rows
    → (m : GoMap Text B) × (scan_rows entry what rows before ≡ ok m)
unfolding scan_rows
scans entry what [] before all = (before, refl)
scans entry what (ok x ∷ rows) before all =
    scans entry what rows (put before (entry x).0 (entry x).1) all.1
scans entry what (err e ∷ rows) before ((x, h), all) = absurd (ground arith)

module _ (db : Database) (b : Behaves db) (driver : Driver)
    (known : b.Understood (placeholders driver)) (up : Answers db b (placeholders driver)) where
  -- A statement that changes a row, and the commit behind it.
  finish_quiet :
      (what : Text) (r : Option Text × db.Tx) → r.0 ≡ none → (finish db driver what r).0 ≡ none
  unfolding finish
  finish_quiet what (none, tx) h = ground (arith, up.commits tx)
  finish_quiet what (some e, tx) h = absurd (ground arith)

  award_badge_quiet :
      (s : db.State) (now : Time) (u : UserId) (badge : Badge)
      → (award_badge db driver s now u badge).0 ≡ none
  unfolding award_badge
  award_badge_quiet s now u badge =
      let (tx, begun) = up.begins s in
      let tx' = (db.exists_badge (placeholders driver) tx u badge).1 in
      let (there, found) = up.finds_badge tx u badge in
      let (_, same, seen) = b.exists_badge_lem (placeholders driver) tx u badge known in
      elim (Bool-cases there) [
        | inl t ↦ rw (begun, found, t, award_badge) (ground (arith, up.commits tx'))
        | inr t ↦
            rw (begun, found, t, award_badge)
              (finish_quiet _ _ (up.inserts_badge tx' u badge now (rw (same, seen there found) t)))
      ]

  set_level_quiet :
      (s : db.State) (now : Time) (u : UserId) (m : Metric) (n : ℤ)
      → (set_level db driver s now u m n).0 ≡ none
  unfolding set_level
  set_level_quiet s now u m n =
      let (tx, begun) = up.begins s in
      let tx' = (db.exists_level (placeholders driver) tx u m).1 in
      let (there, found) = up.finds_level tx u m in
      let (_, same, seen) = b.exists_level_lem (placeholders driver) tx u m known in
      elim (Bool-cases there) [
        | inl t ↦
            rw (begun, found, t, set_level) (finish_quiet _ _ (up.updates_level tx' n now u m))
        | inr t ↦
            rw (begun, found, t, set_level)
              (finish_quiet _ _ (up.inserts_level tx' u m n now (rw (same, seen there found) t)))
      ]

  write_points_quiet :
      (tx : db.Tx) (now : Time) (u : UserId) (m : Metric) (current : Option ℤ) (n : ℤ)
      → (b.view tx).points u m ≡ current
      → (write_points db driver tx now u m current n).0 ≡ none
  unfolding write_points
  write_points_quiet tx now u m (some _) n row = up.updates_points tx n now u m
  write_points_quiet tx now u m none n row = up.inserts_points tx u m n now row

  -- An addition is refused for a delta of 0 and for a sum that is no int64, and else returns the sum.
  add_points_quiet :
      (s : db.State) (now : Time) (u : UserId) (m : Metric) (d : ℤ)
      → IsInt64 (or_zero ((b.content s).points u m))
      → IsInt64 d
      → d ≢ pos 0
      → (add_points db driver s now u m d).0
        ≡ (elim (add_safe (or_zero ((b.content s).points u m)) d) [
          | ok n ↦ ok n
          | err _ ↦ err sql_overflow
        ])
  unfolding add_points add_in_transaction add_to commit_points
  add_points_quiet s now u m d ho hd ne =
      let (tx, begun) = up.begins s in
      let (v, o) = b.begin_ok s tx begun in
      let tx' = (db.select_points (placeholders driver) tx u m).1 in
      let (current, found) = up.selects tx u m in
      let (_, kept, seen) = b.select_points_lem (placeholders driver) tx u m known in
      let same : (b.content s).points u m ≡ current =
        ap (λ c. c.points u m) (sym v) ∙ seen current found in
      let sum = add64 (or_zero current) d in
      let written = write_points_quiet tx' now u m current sum (rw kept (seen current found)) in
      let begun' : add_points db driver s now u m d ≡ add_to db driver tx' now u m current d =
        ground arith in
      rw (begun', same)
        (elim (wraps_iff_refused (or_zero current) d (rw same at ho) hd ne) [
          | inr (t, e) ↦ rw (t, e, add_to) refl
          | inl (t, e) ↦
              rw (t, e, written, add_to)
                (ground (arith, up.commits (write_points db driver tx' now u m current sum).1))
        ])

  read_levels_quiet :
      (s : db.State) (state : UserState)
      → (st : UserState) × (read_levels db driver state s ≡ ok st)
  unfolding read_levels
  read_levels_quiet s state =
      let (rows, shown, all) = up.shows_levels s state.user_id in
      let (levels, e) =
        scans (λ x. x) (text "failed to scan level: ") rows.scanned state.levels all in
      (record state { levels = levels }, ground (arith, shown, e))

  read_badges_quiet :
      (s : db.State) (state : UserState)
      → (st : UserState) × (read_badges db driver state s ≡ ok st)
  unfolding read_badges
  read_badges_quiet s state =
      let (rows, shown, all) = up.shows_badges s state.user_id in
      let (badges, e) =
        scans (λ c. (c, tt)) (text "failed to scan badge: ") rows.scanned state.badges all in
      let (st, k) = read_levels_quiet s (record state { badges = badges }) in
      (st, ground (arith, shown, e, k))

  get_state_quiet :
      (s : db.State) (now : Time) (u : UserId)
      → (st : UserState) × (get_state db driver s now u ≡ ok st)
  unfolding get_state
  get_state_quiet s now u =
      let (rows, shown, all) = up.shows_points s u in
      let (points, e) = scans (λ x. x) (text "failed to scan points: ") rows.scanned [] all in
      let (st, k) =
        read_badges_quiet s
          (record { user_id = u; points = points; badges = []; levels = []; updated = now }) in
      (st, ground (arith, shown, e, k))

  -- On a database that answers every statement, an INSERT only of a row that is not there: awarding a badge and setting a level succeed and
  -- are stored; adding a delta that is not 0, to int64 balances and deltas, succeeds exactly when
  -- AddSafe does, with its sum; and GetState returns a state.
  pub store_answers :
      (s : db.State) (now : Time) (u : UserId) (m : Metric) (d n : ℤ) (badge : Badge)
      → IsInt64 (or_zero ((b.content s).points u m))
      → IsInt64 d
      → d ≢ pos 0
      → ((award_badge db driver s now u badge).0 ≡ none)
        × (b.content (award_badge db driver s now u badge).1 ≡ put_badge u badge (b.content s))
        × ((set_level db driver s now u m n).0 ≡ none)
        × (b.content (set_level db driver s now u m n).1 ≡ put_level u m n (b.content s))
        × ((add_points db driver s now u m d).0
            ≡ (elim (add_safe (or_zero ((b.content s).points u m)) d) [
              | ok sum ↦ ok sum
              | err _ ↦ err sql_overflow
            ]))
        × ((st : UserState) × (get_state db driver s now u ≡ ok st))
  store_answers s now u m d n badge ho hd ne =
      let awarded = award_badge_quiet s now u badge in
      let leveled = set_level_quiet s now u m n in
      (
        awarded,
        stored (award_badge-Done db b driver known s now u badge) awarded,
        leveled,
        stored (set_level-Done db b driver known s now u m n) leveled,
        add_points_quiet s now u m d ho hd ne,
        get_state_quiet s now u,
      )
    where
      stored :
          {r : Option Error × db.State} {before after : Content}
          → Done db b r before after
          → r.0 ≡ none
          → b.content r.1 ≡ after
      stored (inl (_, k)) h = k
      stored (inr (e, k, _)) h = absurd (ground arith)
