-- ===== src/Stores/Database.antt =====
-- The database behind adapters/sqlx/storage.go, which is not in the repository: what the store asks
-- of a connection and of a transaction, and the documented behaviour that it relies on. Each
-- query stands for the statement of that name; its text exists with two kinds of placeholders.
use gamifykit.Prelude.{
  ◌≡◌, ◌⊎◌, Bool, true, false, List, [], ◌∷◌, Option, none, some, Result, ok, err, ite,
}
use gamifykit.Prelude.Int.{ℤ}
use gamifykit.Prelude.Text.{Text, Text-discrete}
use gamifykit.Engine.Storage.{is_some}
use gamifykit.Core.{UserId, Metric, Badge, Time}

-- `$1` or `?`
pub data Placeholders : Type 0 where
  numbered question_marks : Placeholders

-- The rows that `rows.Next` came to, each with the result of `rows.Scan`, and what `rows.Err`
-- says behind the last: nil if there were no more rows.
pub record Rows (A : Type 0) : Type 0 where
  pub scanned : List (Result Text A)
  pub broken : Option Text

pub record Database : Type 1 where
  pub State : Type 0
  pub Tx : Type 0
  pub begin : State → Result (Text × State) Tx
  pub commit : Tx → Option Text × State
  pub rollback : Tx → State
  pub select_points : Placeholders → Tx → UserId → Metric → Result Text (Option ℤ) × Tx
  pub update_points : Placeholders → Tx → ℤ → Time → UserId → Metric → Option Text × Tx
  pub insert_points : Placeholders → Tx → UserId → Metric → ℤ → Time → Time → Option Text × Tx
  pub exists_badge : Placeholders → Tx → UserId → Badge → Result Text Bool × Tx
  pub insert_badge : Placeholders → Tx → UserId → Badge → Time → Option Text × Tx
  pub exists_level : Placeholders → Tx → UserId → Metric → Result Text Bool × Tx
  pub update_level : Placeholders → Tx → ℤ → Time → UserId → Metric → Option Text × Tx
  pub insert_level : Placeholders → Tx → UserId → Metric → ℤ → Time → Time → Option Text × Tx
  pub query_points : Placeholders → State → UserId → Result Text (Rows (Metric × ℤ))
  pub query_badges : Placeholders → State → UserId → Result Text (Rows Badge)
  pub query_levels : Placeholders → State → UserId → Result Text (Rows (Metric × ℤ))

abbrev pub Awarded : Type 0
Awarded = Unit

-- What the three tables say; a pair without a row is `none`.
pub record Content : Type 0 where
  pub points : UserId → Metric → Option ℤ
  pub levels : UserId → Metric → Option ℤ
  pub badges : UserId → Badge → Option Awarded

-- A cell of a table, written.
abbrev pub at_cell {ℓ} : {A : Type ℓ} → UserId → Text → A → (UserId → Text → A) → UserId → Text → A
at_cell u k x f v j = ite (Text-discrete u v) (ite (Text-discrete k j) x (f v j)) (f v j)

abbrev pub put_points : UserId → Metric → ℤ → Content → Content
put_points u m n c = record c { points = at_cell u m (some n) c.points }

abbrev pub put_level : UserId → Metric → ℤ → Content → Content
put_level u m n c = record c { levels = at_cell u m (some n) c.levels }

abbrev pub put_badge : UserId → Badge → Content → Content
put_badge u b c = record c { badges = at_cell u b (some tt) c.badges }

-- Every row that was scanned satisfies `P`.
abbrev pub EachRow : {A : Type 0} → (A → Type 0) → List (Result Text A) → Type 0
EachRow P [] = Unit
EachRow P (ok x ∷ rows) = P x × EachRow P rows
EachRow P (err e ∷ rows) = EachRow P rows

-- Some row that was scanned satisfies `P`.
abbrev pub SomeRow : {A : Type 0} → (A → Type 0) → List (Result Text A) → Type 0
SomeRow P [] = ⊥
SomeRow P (ok x ∷ rows) = P x ⊎ SomeRow P rows
SomeRow P (err e ∷ rows) = SomeRow P rows

-- The rows are those of `cells`, all of them if the reading did not break off.
abbrev pub Shows : {A B : Type 0} → (A → Text × B) → (Text → Option B) → Rows A → Type 0
Shows {B = B} entry cells rows =
    EachRow (λ x. cells (entry x).0 ≡ some (entry x).1) rows.scanned
    × (rows.broken ≡ none
        → (k : Text) (v : B) → cells k ≡ some v
        → SomeRow (λ x. entry x ≡ (k, v)) rows.scanned)

-- Documented behaviour: what a statement that succeeds does inside a transaction, that a rollback
-- undoes the transaction, and that a commit that reports an error has stored all of it or none.
pub record Behaves (db : Database) : Type 1 where
  pub content : db.State → Content
  -- what a transaction sees, and what was stored when it began
  pub view : db.Tx → Content
  pub origin : db.Tx → Content
  -- the placeholders that the driver of the connection takes
  pub Understood : Placeholders → Type 0
  pub begin_ok :
      (s : db.State) (tx : db.Tx)
      → db.begin s ≡ ok tx
      → (view tx ≡ content s) × (origin tx ≡ content s)
  pub begin_failed :
      (s : db.State) (e : Text) (s' : db.State) → db.begin s ≡ err (e, s') → content s' ≡ content s
  pub commit_ok : (tx : db.Tx) (s : db.State) → db.commit tx ≡ (none, s) → content s ≡ view tx
  pub commit_failed :
      (tx : db.Tx) (e : Text) (s : db.State)
      → db.commit tx ≡ (some e, s)
      → (content s ≡ origin tx) ⊎ (content s ≡ view tx)
  pub rollback_lem : (tx : db.Tx) → content (db.rollback tx) ≡ origin tx
  pub select_points_lem :
      (ph : Placeholders) (tx : db.Tx) (u : UserId) (m : Metric)
      → Understood ph
      → (origin (db.select_points ph tx u m).1 ≡ origin tx)
        × (view (db.select_points ph tx u m).1 ≡ view tx)
        × ((r : Option ℤ) → (db.select_points ph tx u m).0 ≡ ok r → (view tx).points u m ≡ r)
  pub update_points_lem :
      (ph : Placeholders) (tx : db.Tx) (n : ℤ) (now : Time) (u : UserId) (m : Metric) (old : ℤ)
      → Understood ph
      → (view tx).points u m ≡ some old
      → (origin (db.update_points ph tx n now u m).1 ≡ origin tx)
        × ((db.update_points ph tx n now u m).0 ≡ none
            → view (db.update_points ph tx n now u m).1 ≡ put_points u m n (view tx))
  pub insert_points_lem :
      (ph : Placeholders) (tx : db.Tx) (u : UserId) (m : Metric) (n : ℤ) (now : Time)
      → Understood ph
      → (view tx).points u m ≡ none
      → (origin (db.insert_points ph tx u m n now now).1 ≡ origin tx)
        × ((db.insert_points ph tx u m n now now).0 ≡ none
            → view (db.insert_points ph tx u m n now now).1 ≡ put_points u m n (view tx))
  pub exists_badge_lem :
      (ph : Placeholders) (tx : db.Tx) (u : UserId) (b : Badge)
      → Understood ph
      → (origin (db.exists_badge ph tx u b).1 ≡ origin tx)
        × (view (db.exists_badge ph tx u b).1 ≡ view tx)
        × ((r : Bool) → (db.exists_badge ph tx u b).0 ≡ ok r → is_some ((view tx).badges u b) ≡ r)
  pub insert_badge_lem :
      (ph : Placeholders) (tx : db.Tx) (u : UserId) (b : Badge) (now : Time)
      → Understood ph
      → is_some ((view tx).badges u b) ≡ false
      → (origin (db.insert_badge ph tx u b now).1 ≡ origin tx)
        × ((db.insert_badge ph tx u b now).0 ≡ none
            → view (db.insert_badge ph tx u b now).1 ≡ put_badge u b (view tx))
  pub exists_level_lem :
      (ph : Placeholders) (tx : db.Tx) (u : UserId) (m : Metric)
      → Understood ph
      → (origin (db.exists_level ph tx u m).1 ≡ origin tx)
        × (view (db.exists_level ph tx u m).1 ≡ view tx)
        × ((r : Bool) → (db.exists_level ph tx u m).0 ≡ ok r → is_some ((view tx).levels u m) ≡ r)
  pub update_level_lem :
      (ph : Placeholders) (tx : db.Tx) (n : ℤ) (now : Time) (u : UserId) (m : Metric)
      → Understood ph
      → is_some ((view tx).levels u m) ≡ true
      → (origin (db.update_level ph tx n now u m).1 ≡ origin tx)
        × ((db.update_level ph tx n now u m).0 ≡ none
            → view (db.update_level ph tx n now u m).1 ≡ put_level u m n (view tx))
  pub insert_level_lem :
      (ph : Placeholders) (tx : db.Tx) (u : UserId) (m : Metric) (n : ℤ) (now : Time)
      → Understood ph
      → is_some ((view tx).levels u m) ≡ false
      → (origin (db.insert_level ph tx u m n now now).1 ≡ origin tx)
        × ((db.insert_level ph tx u m n now now).0 ≡ none
            → view (db.insert_level ph tx u m n now now).1 ≡ put_level u m n (view tx))
  pub query_points_lem :
      (ph : Placeholders) (s : db.State) (u : UserId) (rows : Rows (Metric × ℤ))
      → Understood ph
      → db.query_points ph s u ≡ ok rows
      → Shows (λ x. x) ((content s).points u) rows
  pub query_badges_lem :
      (ph : Placeholders) (s : db.State) (u : UserId) (rows : Rows Badge)
      → Understood ph
      → db.query_badges ph s u ≡ ok rows
      → Shows (λ b. (b, tt)) ((content s).badges u) rows
  pub query_levels_lem :
      (ph : Placeholders) (s : db.State) (u : UserId) (rows : Rows (Metric × ℤ))
      → Understood ph
      → db.query_levels ph s u ≡ ok rows
      → Shows (λ x. x) ((content s).levels u) rows
