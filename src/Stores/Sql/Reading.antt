-- ===== src/Stores/Sql/Reading.antt =====
-- What GetState of the SQL store shows of the database.
use gamifykit.Prelude.{
  ◌≡◌, ◌⊎◌, inl, inr, refl, ap, sym, ◌∙◌, arith, ite, Option-cases, List, [], ◌∷◌, Option, none,
  some, Result, ok, err, Result-cases,
}
use gamifykit.Prelude.Int.{ℤ}
use gamifykit.Prelude.GoMap.{GoMap, get, put, get-put}
use gamifykit.Prelude.Text.{Text, text, text_key, Text-discrete}
use gamifykit.Core.{UserId, Metric, Badge, Time, UserState}
use gamifykit.Config.Types.{Driver}
use gamifykit.Stores.Database.{Database, Behaves, EachRow, SomeRow, Shows, Rows}
use gamifykit.Stores.Sql.{placeholders, scan_rows, read_levels, read_badges, get_state}

-- The map shows nothing but cells of the table.
abbrev pub SoundMap : {B : Type 0} → GoMap Text B → (Text → Option B) → Type 0
SoundMap {B = B} m cells = (k : Text) (v : B) → get m k ≡ some v → cells k ≡ some v

-- The map shows every cell of the table.
abbrev pub CompleteMap : {B : Type 0} → GoMap Text B → (Text → Option B) → Type 0
CompleteMap {B = B} m cells = (k : Text) (v : B) → cells k ≡ some v → get m k ≡ some v

scan_rows-SoundMap :
    {A B : Type 0} (entry : A → Text × B) (what : Text) (cells : Text → Option B)
    (rows : List (Result Text A)) (before m : GoMap Text B)
    → EachRow (λ x. cells (entry x).0 ≡ some (entry x).1) rows
    → SoundMap before cells
    → scan_rows entry what rows before ≡ ok m
    → SoundMap m cells
unfolding scan_rows
scan_rows-SoundMap entry what cells [] before m each sound h = λ k v e. sound k v (ground arith)
scan_rows-SoundMap entry what cells (err e ∷ rows) before m each sound h = absurd (ground arith)
scan_rows-SoundMap entry what cells (ok x ∷ rows) before m each sound h =
    scan_rows-SoundMap entry what cells rows (put before (entry x).0 (entry x).1) m each.1
      (λ k v e. ground (arith, get-put before (entry x).0 k (entry x).1, sound k v, each.0)) h

-- What is scanned, or was there, is in the map.
scan_rows-get :
    {A B : Type 0} (entry : A → Text × B) (what : Text) (cells : Text → Option B)
    (rows : List (Result Text A)) (before m : GoMap Text B) (k : Text) (v : B)
    → EachRow (λ x. cells (entry x).0 ≡ some (entry x).1) rows
    → cells k ≡ some v
    → SomeRow (λ x. entry x ≡ (k, v)) rows ⊎ (get before k ≡ some v)
    → scan_rows entry what rows before ≡ ok m
    → get m k ≡ some v
unfolding scan_rows
scan_rows-get entry what cells [] before m k v each c (inl s) h = absurd s
scan_rows-get entry what cells [] before m k v each c (inr g) h = ground arith
scan_rows-get entry what cells (err e ∷ rows) before m k v each c s h = absurd (ground arith)
scan_rows-get entry what cells (ok x ∷ rows) before m k v each c s h =
    scan_rows-get entry what cells rows (put before (entry x).0 (entry x).1) m k v each.1 c
      (next (get-put before (entry x).0 k (entry x).1) s) h
  where
    next :
        get (put before (entry x).0 (entry x).1) k
          ≡ ite (Text-discrete (entry x).0 k) (some (entry x).1) (get before k)
        → ((entry x ≡ (k, v)) ⊎ SomeRow (λ y. entry y ≡ (k, v)) rows) ⊎ (get before k ≡ some v)
        → SomeRow (λ y. entry y ≡ (k, v)) rows
          ⊎ (get (put before (entry x).0 (entry x).1) k ≡ some v)
    next p (inl (inl e)) = inr (ground (arith, p, ap (λ y. y.0) e, ap (λ y. y.1) e))
    next p (inl (inr s)) = inl s
    next p (inr g) = inr (ground (arith, p, g, c, each.0))

-- The map of a reading that did not break off is the table.
scanned :
    {A B : Type 0} (entry : A → Text × B) (what : Text) (cells : Text → Option B) (rows : Rows A)
    (m : GoMap Text B)
    → Shows entry cells rows
    → rows.broken ≡ none
    → scan_rows entry what rows.scanned [] ≡ ok m
    → (k : Text) → get m k ≡ cells k
unfolding get
scanned entry what cells rows m (each, all) done h k = elim (Option-cases (cells k)) [
  | inr (v, c) ↦
      scan_rows-get entry what cells rows.scanned [] m k v each c (inl (all done k v c)) h ∙ sym c
  | inl c ↦ elim (Option-cases (get m k)) [
    | inl e ↦ e ∙ sym c
    | inr (v, e) ↦ absurd (
        ground (
          arith,
          scan_rows-SoundMap entry what cells rows.scanned [] m each
              (λ k v e. absurd (ground arith)) h k v e,
        ))
  ]
]

module _ (db : Database) (b : Behaves db) (driver : Driver)
    (known : b.Understood (placeholders driver)) where
  -- No reading of the rows breaks off.
  abbrev pub Unbroken : db.State → UserId → Type 0
  Unbroken s u =
      ((rows : Rows (Metric × ℤ))
        → db.query_points (placeholders driver) s u ≡ ok rows
        → rows.broken ≡ none)
      × ((rows : Rows Badge)
          → db.query_badges (placeholders driver) s u ≡ ok rows
          → rows.broken ≡ none)
      × ((rows : Rows (Metric × ℤ))
          → db.query_levels (placeholders driver) s u ≡ ok rows
          → rows.broken ≡ none)

  read_levels_lem :
      (s : db.State) (state st : UserState)
      → Unbroken s state.user_id
      → state.levels ≡ []
      → read_levels db driver state s ≡ ok st
      → (st.user_id ≡ state.user_id)
        × (st.points ≡ state.points)
        × (st.badges ≡ state.badges)
        × ((m : Metric) → get st.levels m ≡ (b.content s).levels state.user_id m)
  unfolding read_levels
  read_levels_lem s state st whole empty h =
      elim (Result-cases (db.query_levels (placeholders driver) s state.user_id)) [
        | inr (e, k) ↦ absurd (ground arith)
        | inl (rows, k) ↦
            elim (Result-cases
              (scan_rows (λ x. x) (text "failed to scan level: ") rows.scanned state.levels)) [
                | inr (e, l) ↦ absurd (ground arith)
                | inl (levels, l) ↦
                    let same : st ≡ record state { levels = levels } = ground arith in
                    let shows =
                      b.query_levels_lem (placeholders driver) s state.user_id rows known k in
                    (
                      ap (λ r. r.user_id) same,
                      ap (λ r. r.points) same,
                      ap (λ r. r.badges) same,
                      rw same
                          (scanned (λ x. x) _ _ rows levels shows (whole.2 rows k) (rw empty at l)),
                    )
              ]
      ]

  read_badges_lem :
      (s : db.State) (state st : UserState)
      → Unbroken s state.user_id
      → state.badges ≡ []
      → state.levels ≡ []
      → read_badges db driver state s ≡ ok st
      → (st.user_id ≡ state.user_id)
        × (st.points ≡ state.points)
        × ((badge : Badge) → get st.badges badge ≡ (b.content s).badges state.user_id badge)
        × ((m : Metric) → get st.levels m ≡ (b.content s).levels state.user_id m)
  unfolding read_badges
  read_badges_lem s state st whole no_badges no_levels h =
      elim (Result-cases (db.query_badges (placeholders driver) s state.user_id)) [
        | inr (e, k) ↦ absurd (ground arith)
        | inl (rows, k) ↦
            elim (Result-cases (
              scan_rows (λ c. (c, tt)) (text "failed to scan badge: ") rows.scanned state.badges)) [
                | inr (e, l) ↦ absurd (ground arith)
                | inl (badges, l) ↦
                    let shows =
                      b.query_badges_lem (placeholders driver) s state.user_id rows known k in
                    let (owner, points, kept, levels) =
                      read_levels_lem s (record state { badges = badges }) st whole no_levels
                        (ground arith) in
                    (
                      owner,
                      points,
                      rw kept (
                          scanned (λ c. (c, tt)) _ _ rows badges shows (whole.1 rows k)
                            (rw no_badges at l)),
                      levels,
                    )
              ]
      ]

  -- Where the reading of the rows does not break off, a state that GetState returns without an
  -- error is that of the user, and has exactly the points, badges and levels of the tables.
  pub get_state_exact :
      (s : db.State) (now : Time) (u : UserId) (st : UserState)
      → Unbroken s u
      → get_state db driver s now u ≡ ok st
      → (st.user_id ≡ u)
        × ((m : Metric) → get st.points m ≡ (b.content s).points u m)
        × ((badge : Badge) → get st.badges badge ≡ (b.content s).badges u badge)
        × ((m : Metric) → get st.levels m ≡ (b.content s).levels u m)
  unfolding get_state
  get_state_exact s now u st whole h =
      elim (Result-cases (db.query_points (placeholders driver) s u)) [
        | inr (e, k) ↦ absurd (ground arith)
        | inl (rows, k) ↦
            elim (Result-cases
              (scan_rows (λ x. x) (text "failed to scan points: ") rows.scanned [])) [
                | inr (e, l) ↦ absurd (ground arith)
                | inl (points, l) ↦
                    let shows = b.query_points_lem (placeholders driver) s u rows known k in
                    let state : UserState = record {
                      user_id = u;
                      points = points;
                      badges = [];
                      levels = [];
                      updated = now;
                    } in
                    let (owner, kept, badges, levels) =
                      read_badges_lem s state st whole refl refl (ground arith) in
                    (
                      owner,
                      rw kept (scanned (λ x. x) _ _ rows points shows (whole.0 rows k) l),
                      badges,
                      levels,
                    )
              ]
      ]
