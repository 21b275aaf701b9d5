-- ===== src/Tests/SqlDatabase.antt =====
-- A database in memory: three tables, transactions on a copy, and commits that may be made to fail.
use gamifykit.Prelude.{
  ◌≡◌, ◌≢◌, inl, inr, refl, ap, subst, fun_ext, sym, ◌∙◌, arith, Bool, true, false, List, [], ◌∷◌,
  Option, none, some, Result, ok, err,
}
use gamifykit.Prelude.Int.{ℤ}
use gamifykit.Prelude.GoMap.{GoMap, get, get_or, put, delete, get-put}
use gamifykit.Prelude.Text.{Text, text, text_key, Text-discrete}
use gamifykit.Core.{UserId, Metric, Badge}
use gamifykit.Engine.Storage.{is_some}
use gamifykit.Stores.Database.{
  Rows, Database, Content, Awarded, at_cell, EachRow, SomeRow, Shows, put_points, put_level,
  put_badge,
}
use gamifykit.Stores.Sql.Answers.{AllScanned}

abbrev pub Grid : Type 0 → Type 0
Grid A = GoMap UserId (GoMap Text A)

abbrev pub cell : {A : Type 0} → Grid A → UserId → Text → Option A
cell g u k = get (get_or g u []) k

abbrev pub write : {A : Type 0} → Grid A → UserId → Text → A → Grid A
write g u k x = put g u (put (get_or g u []) k x)

pub cell-write :
    {A : Type 0} (g : Grid A) (u : UserId) (k : Text) (x : A)
    → cell (write g u k x) ≡ at_cell u k (some x) (cell g)
cell-write g u k x = fun_ext (λ v.
    fun_ext
      (λ j. ground (arith, get-put g u v (put (get_or g u []) k x), get-put (get_or g u []) k j x)))

-- The rows of a map, one for each key.
abbrev pub rows_of : {A : Type 0} → GoMap Text A → GoMap Text A
rows_of [] = []
rows_of ((k, v) ∷ m) = (k, v) ∷ delete (rows_of m) k

abbrev pub fetched : {A B : Type 0} → (A → B) → List A → List (Result Text B)
fetched f [] = []
fetched f (x ∷ xs) = ok (f x) ∷ fetched f xs

EachRow-delete :
    {A B : Type 0} (f : Text × A → B) (P Q : B → Type 0) (m : GoMap Text A) (k : Text)
    → EachRow P (fetched f m)
    → ((j : Text) (v : A) → k ≢ j → P (f (j, v)) → Q (f (j, v)))
    → EachRow Q (fetched f (delete m k))
unfolding delete
EachRow-delete f P Q [] k h step = tt
EachRow-delete f P Q ((j, w) ∷ m) k h step = elim (Text-discrete j k) [
  | yes e ↦
      let same : delete ((j, w) ∷ m) k ≡ delete m k = ground arith in
      rw same (EachRow-delete f P Q m k h.1 step)
  | no n ↦
      let other : delete ((j, w) ∷ m) k ≡ (j, w) ∷ delete m k = ground arith in
      rw other (step j w (λ e. n (sym e)) h.0, EachRow-delete f P Q m k h.1 step)
]

SomeRow-delete :
    {A B : Type 0} (f : Text × A → B) (P : B → Type 0) (m : GoMap Text A) (k : Text)
    → ((v : A) → ¬ P (f (k, v)))
    → SomeRow P (fetched f m)
    → SomeRow P (fetched f (delete m k))
unfolding delete
SomeRow-delete f P [] k gone h = absurd h
SomeRow-delete f P ((j, w) ∷ m) k gone h = elim (Text-discrete j k) [
  | yes e ↦
      let same : delete ((j, w) ∷ m) k ≡ delete m k = ground arith in
      rw same (elim h [
        | inl p ↦ absurd (gone w (subst (λ i. P (f (i, w))) e p))
        | inr r ↦ SomeRow-delete f P m k gone r
      ])
  | no n ↦
      let other : delete ((j, w) ∷ m) k ≡ (j, w) ∷ delete m k = ground arith in
      rw other (elim h [ inl p ↦ inl p | inr r ↦ inr (SomeRow-delete f P m k gone r) ])
]

module _ {A B : Type 0} (entry : B → Text × A) (f : Text × A → B)
    (back : (x : Text × A) → entry (f x) ≡ x) where
  rows_sound :
      (m : GoMap Text A)
      → EachRow (λ y. get m (entry y).0 ≡ some (entry y).1) (fetched f (rows_of m))
  unfolding get
  rows_sound [] = tt
  rows_sound ((k, v) ∷ m) = (
    rw (back (k, v)) (ground arith),
    EachRow-delete f (λ y. get m (entry y).0 ≡ some (entry y).1) _ (rows_of m) k (rows_sound m)
        (λ j w n h. ground (arith, h, n, ap (λ x. x.0) (back (j, w)))),
  )

  rows_complete :
      (m : GoMap Text A) (k : Text) (v : A)
      → get m k ≡ some v
      → SomeRow (λ y. entry y ≡ (k, v)) (fetched f (rows_of m))
  unfolding get
  rows_complete [] k v h = absurd (ground arith)
  rows_complete ((j, w) ∷ m) k v h = elim (Text-discrete j k) [
    | yes e ↦ let found : w ≡ v = ground arith in inl (back (j, w) ∙ (λ i. (e i, found i)))
    | no n ↦ inr (
        SomeRow-delete f (λ y. entry y ≡ (k, v)) (rows_of m) j
          (λ x e. n (ap (λ z. z.0) (sym (back (j, x)) ∙ e))) (rows_complete m k v (ground arith)))
  ]

  pub rows-Shows :
      (m : GoMap Text A)
      → Shows entry (get m) (record { scanned = fetched f (rows_of m); broken = none })
  rows-Shows m = (rows_sound m, λ _ k v h. rows_complete m k v h)

pub AllScanned-fetched : {A B : Type 0} (f : A → B) (xs : List A) → AllScanned (fetched f xs)
AllScanned-fetched f [] = tt
AllScanned-fetched f (x ∷ xs) = ((f x, refl), AllScanned-fetched f xs)

pub record Tables : Type 0 where
  pub user_points : Grid ℤ
  pub user_levels : Grid ℤ
  pub user_badges : Grid Awarded

abbrev pub Pending : Type 0
Pending = Tables × Tables

abbrev pub change : (Tables → Tables) → Pending → Option Text × Pending
change f (before, now) = (none, (before, f now))

-- The keys are unique: a row that is there cannot be inserted, and one that is not is not updated.
abbrev pub inserted : Bool → (Tables → Tables) → Pending → Option Text × Pending
inserted true f tx = (some (text "UNIQUE constraint failed"), tx)
inserted false f tx = change f tx

abbrev pub updated : Bool → (Tables → Tables) → Pending → Option Text × Pending
updated true f tx = change f tx
updated false f tx = (none, tx)

abbrev pub fetch : {A B : Type 0} → (Text × A → B) → GoMap Text A → Result Text (Rows B)
fetch f m = ok (record { scanned = fetched f (rows_of m); broken = none })

-- Where `fails` is true no commit succeeds, and nothing is stored.
abbrev pub memory_database : Bool → Database
memory_database fails = record {
  State = Tables;
  Tx = Pending;
  begin = λ s. ok (s, s);
  commit = λ tx. elim fails [ true ↦ (some (text "disk full"), tx.0) | false ↦ (none, tx.1) ];
  rollback = λ tx. tx.0;
  select_points = λ ph tx u m. (ok (cell tx.1.user_points u m), tx);
  update_points = λ ph tx n now u m.
      updated (is_some (cell tx.1.user_points u m))
        (λ s. record s { user_points = write s.user_points u m n }) tx;
  insert_points = λ ph tx u m n now then.
      inserted (is_some (cell tx.1.user_points u m))
        (λ s. record s { user_points = write s.user_points u m n }) tx;
  exists_badge = λ ph tx u b. (ok (is_some (cell tx.1.user_badges u b)), tx);
  insert_badge = λ ph tx u b now.
      inserted (is_some (cell tx.1.user_badges u b))
        (λ s. record s { user_badges = write s.user_badges u b tt }) tx;
  exists_level = λ ph tx u m. (ok (is_some (cell tx.1.user_levels u m)), tx);
  update_level = λ ph tx n now u m.
      updated (is_some (cell tx.1.user_levels u m))
        (λ s. record s { user_levels = write s.user_levels u m n }) tx;
  insert_level = λ ph tx u m n now then.
      inserted (is_some (cell tx.1.user_levels u m))
        (λ s. record s { user_levels = write s.user_levels u m n }) tx;
  query_points = λ ph s u. fetch (λ x. x) (get_or s.user_points u []);
  query_badges = λ ph s u. fetch (λ x. x.0) (get_or s.user_badges u []);
  query_levels = λ ph s u. fetch (λ x. x) (get_or s.user_levels u []);
}

abbrev pub content_of : Tables → Content
content_of s = record {
  points = cell s.user_points;
  levels = cell s.user_levels;
  badges = cell s.user_badges;
}

pub commit_of :
    (fails : Bool) (tx : Pending) (s : Tables)
    → (memory_database fails).commit tx ≡ (none, s)
    → content_of s ≡ content_of tx.1
commit_of true tx s h = absurd (ground (arith, ap (λ r. r.0) h))
commit_of false tx s h = ap content_of (sym (ap (λ r. r.1) h))

pub commit_kept :
    (fails : Bool) (tx : Pending) (e : Text) (s : Tables)
    → (memory_database fails).commit tx ≡ (some e, s)
    → content_of s ≡ content_of tx.0
commit_kept true tx e s h = ap content_of (sym (ap (λ r. r.1) h))
commit_kept false tx e s h = absurd (ground (arith, ap (λ r. r.0) h))

pub points_written :
    (s : Tables) (u : UserId) (m : Metric) (n : ℤ)
    → content_of (record s { user_points = write s.user_points u m n })
      ≡ put_points u m n (content_of s)
points_written s u m n = λ i. record (content_of s) { points = cell-write s.user_points u m n i }

pub level_written :
    (s : Tables) (u : UserId) (m : Metric) (n : ℤ)
    → content_of (record s { user_levels = write s.user_levels u m n })
      ≡ put_level u m n (content_of s)
level_written s u m n = λ i. record (content_of s) { levels = cell-write s.user_levels u m n i }

pub badge_written :
    (s : Tables) (u : UserId) (b : Badge)
    → content_of (record s { user_badges = write s.user_badges u b tt })
      ≡ put_badge u b (content_of s)
badge_written s u b = λ i. record (content_of s) { badges = cell-write s.user_badges u b tt i }

pub ok_value : {E A : Type 0} {x y : A} → ◌≡◌ {A = Result E A} (ok x) (ok y) → x ≡ y
ok_value {x = x} h = ap (λ r. elim r [ ok a ↦ a | err _ ↦ x ]) h
