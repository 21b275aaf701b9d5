-- ===== src/Tests/SqlTests.antt =====
-- The theorems on adapters/sqlx/ at concrete inputs, on the database in memory.
use gamifykit.Prelude.{
  ◌≡◌, ◌≢◌, ◌⊎◌, inl, inr, refl, ap, subst, sym, arith, Bool, true, false, Option, none, some,
  Result, ok, err, List, [], ◌∷◌,
}
use gamifykit.Prelude.Int.{ℤ, pos, negsuc, IsInt64, max_int64}
use gamifykit.Prelude.GoMap.{get, get_or}
use gamifykit.Prelude.Text.{Text, text, text_key}
use gamifykit.Core.{UserId, Metric, Badge, UserState, metric_xp}
use gamifykit.Core.Arith.{add_safe}
use gamifykit.Engine.Storage.{is_some}
use gamifykit.Config.Types.{postgres}
use gamifykit.Stores.Database.{numbered, Behaves, Shows, put_level, put_badge}
use gamifykit.Stores.Sql.{
  placeholders, or_zero, sql_overflow, add_points, award_badge, set_level, get_state,
}
use gamifykit.Stores.Sql.Outcomes.{Done, award_badge-Done}
use gamifykit.Stores.Sql.Additions.{Added, add_points-Added}
use gamifykit.Stores.Sql.Reading.{get_state_exact}
use gamifykit.Stores.Sql.Answers.{Answers, store_answers}
use gamifykit.Tests.SqlDatabase.{
  Tables, memory_database, content_of, commit_of, commit_kept, points_written, level_written,
  badge_written, rows-Shows, AllScanned-fetched, rows_of, ok_value, cell,
}

abbrev memory_behaves : (fails : Bool) → Behaves (memory_database fails)
memory_behaves fails = record {
  content = content_of;
  view = λ tx. content_of tx.1;
  origin = λ tx. content_of tx.0;
  Understood = λ ph. ph ≡ numbered;
  begin_ok = λ s tx h.
      (ap (λ t. content_of t.1) (sym (ok_value h)), ap (λ t. content_of t.0) (sym (ok_value h)));
  begin_failed = λ s e s' h. absurd (ground arith);
  commit_ok = λ tx s h. commit_of fails tx s h;
  commit_failed = λ tx e s h. inl (commit_kept fails tx e s h);
  rollback_lem = λ tx. refl;
  select_points_lem = λ ph tx u m k. (refl, refl, λ r h. ok_value h);
  update_points_lem =
      λ ph tx n now u m old k h. rw (ap is_some h) (refl, λ e. points_written tx.1 u m n);
  insert_points_lem =
      λ ph tx u m n now k h. rw (ap is_some h) (refl, λ e. points_written tx.1 u m n);
  exists_badge_lem = λ ph tx u b k. (refl, refl, λ r h. ok_value h);
  insert_badge_lem = λ ph tx u b now k h. rw h (refl, λ e. badge_written tx.1 u b);
  exists_level_lem = λ ph tx u m k. (refl, refl, λ r h. ok_value h);
  update_level_lem = λ ph tx n now u m k h. rw h (refl, λ e. level_written tx.1 u m n);
  insert_level_lem = λ ph tx u m n now k h. rw h (refl, λ e. level_written tx.1 u m n);
  query_points_lem = λ ph s u rows k h.
      subst (Shows (λ x. x) (cell s.user_points u)) (ok_value h)
        (rows-Shows (λ x. x) (λ x. x) (λ x. refl) (get_or s.user_points u []));
  query_badges_lem = λ ph s u rows k h.
      subst (Shows (λ b. (b, tt)) (cell s.user_badges u)) (ok_value h)
        (rows-Shows (λ b. (b, tt)) (λ x. x.0) (λ x. refl) (get_or s.user_badges u []));
  query_levels_lem = λ ph s u rows k h.
      subst (Shows (λ x. x) (cell s.user_levels u)) (ok_value h)
        (rows-Shows (λ x. x) (λ x. x) (λ x. refl) (get_or s.user_levels u []));
}

memory-Answers : Answers (memory_database false) (memory_behaves false) numbered
memory-Answers = record {
  begins = λ s. ((s, s), refl);
  commits = λ tx. refl;
  selects = λ tx u m. (cell tx.1.user_points u m, refl);
  updates_points = λ tx n now u m. ground arith;
  inserts_points = λ tx u m n now h. rw (ap is_some h) refl;
  finds_badge = λ tx u badge. (is_some (cell tx.1.user_badges u badge), refl);
  inserts_badge = λ tx u badge now h. rw h refl;
  finds_level = λ tx u m. (is_some (cell tx.1.user_levels u m), refl);
  updates_level = λ tx n now u m. ground arith;
  inserts_level = λ tx u m n now h. rw h refl;
  shows_points =
      λ s u. (_, refl, AllScanned-fetched (λ x. x) (rows_of (get_or s.user_points u [])));
  shows_badges =
      λ s u. (_, refl, AllScanned-fetched (λ x. x.0) (rows_of (get_or s.user_badges u [])));
  shows_levels =
      λ s u. (_, refl, AllScanned-fetched (λ x. x) (rows_of (get_or s.user_levels u [])));
}

abbrev alice : UserId
alice = text "alice"

abbrev early_bird : Badge
early_bird = text "early_bird"

abbrev tables : Tables
tables = record {
  user_points = (alice, (metric_xp, pos 40) ∷ []) ∷ [];
  user_levels = (alice, (metric_xp, pos 2) ∷ []) ∷ [];
  user_badges = (alice, (early_bird, tt) ∷ []) ∷ [];
}

abbrev alice_state : UserState
alice_state = record {
  user_id = alice;
  points = (metric_xp, pos 40) ∷ [];
  badges = (early_bird, tt) ∷ [];
  levels = (metric_xp, pos 2) ∷ [];
  updated = 7;
}

total_returned :
    (add_points (memory_database false) postgres tables 7 alice metric_xp (pos 5)).0 ≡ ok (pos 45)
unfolding add_points gamifykit.Prelude.Int.ℤ-discrete gamifykit.Prelude.ℕ_discrete
    gamifykit.Stores.Sql.add_in_transaction gamifykit.Stores.Sql.add_to gamifykit.Prelude.Int.add64
    gamifykit.Prelude.Int.wrap64 gamifykit.Prelude.Int.◌+ℤ◌ get gamifykit.Prelude.Text.Text-discrete
    gamifykit.Stores.Sql.write_points gamifykit.Stores.Sql.commit_points
total_returned = refl

overflow_refused :
    (add_points (memory_database false) postgres tables 7 alice metric_xp max_int64).0
    ≡ err sql_overflow
unfolding add_points gamifykit.Prelude.Int.ℤ-discrete gamifykit.Prelude.ℕ_discrete
    gamifykit.Stores.Sql.add_in_transaction gamifykit.Stores.Sql.add_to gamifykit.Prelude.Int.add64
    gamifykit.Prelude.Int.wrap64 gamifykit.Prelude.Int.◌+ℤ◌ get gamifykit.Prelude.Text.Text-discrete
overflow_refused = refl

add_points-Added_example :
    Added
      (memory_database true)
      (memory_behaves true)
      postgres
      refl
      (add_points (memory_database true) postgres tables 7 alice metric_xp (pos 5))
      (content_of tables)
      alice
      metric_xp
      (pos 5)
unfolding get gamifykit.Prelude.Text.Text-discrete
add_points-Added_example =
    add_points-Added (memory_database true) (memory_behaves true) postgres refl tables 7 alice
      metric_xp (pos 5) (omega arith, omega arith) (omega arith, omega arith)

award_badge-Done_example :
    Done
      (memory_database false)
      (memory_behaves false)
      (award_badge (memory_database false) postgres tables 7 alice (text "night_owl"))
      (content_of tables)
      (put_badge alice (text "night_owl") (content_of tables))
award_badge-Done_example =
    award_badge-Done (memory_database false) (memory_behaves false) postgres refl tables 7 alice
      (text "night_owl")

get_state_exact_example :
    (alice_state.user_id ≡ alice)
    × ((m : Metric) → get alice_state.points m ≡ (content_of tables).points alice m)
    × ((badge : Badge) → get alice_state.badges badge ≡ (content_of tables).badges alice badge)
    × ((m : Metric) → get alice_state.levels m ≡ (content_of tables).levels alice m)
unfolding get_state gamifykit.Stores.Sql.scan_rows get gamifykit.Prelude.Text.Text-discrete
    gamifykit.Prelude.GoMap.delete gamifykit.Stores.Sql.read_badges gamifykit.Stores.Sql.read_levels
    gamifykit.Prelude.GoMap.put
get_state_exact_example =
    get_state_exact (memory_database false) (memory_behaves false) postgres refl tables 7 alice
      alice_state
      (
        λ rows h. ap (λ r. r.broken) (sym (ok_value h)),
        λ rows h. ap (λ r. r.broken) (sym (ok_value h)),
        λ rows h. ap (λ r. r.broken) (sym (ok_value h)),
      )
      refl

store_answers_example :
    ((award_badge (memory_database false) postgres tables 7 alice early_bird).0 ≡ none)
    × (content_of (award_badge (memory_database false) postgres tables 7 alice early_bird).1
        ≡ put_badge alice early_bird (content_of tables))
    × ((set_level (memory_database false) postgres tables 7 alice metric_xp (pos 3)).0 ≡ none)
    × (content_of (set_level (memory_database false) postgres tables 7 alice metric_xp (pos 3)).1
        ≡ put_level alice metric_xp (pos 3) (content_of tables))
    × ((add_points (memory_database false) postgres tables 7 alice metric_xp (pos 5)).0
        ≡ (elim (add_safe (or_zero ((content_of tables).points alice metric_xp)) (pos 5)) [
          | ok sum ↦ ok sum
          | err _ ↦ err sql_overflow
        ]))
    × ((st : UserState) × (get_state (memory_database false) postgres tables 7 alice ≡ ok st))
unfolding get gamifykit.Prelude.Text.Text-discrete
store_answers_example =
    store_answers (memory_database false) (memory_behaves false) postgres refl memory-Answers tables
      7 alice metric_xp (pos 5) (pos 3) early_bird (omega arith, omega arith)
      (omega arith, omega arith) (λ e. absurd (ground (arith, e)))
