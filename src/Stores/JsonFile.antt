-- ===== src/Stores/JsonFile.antt =====
-- adapters/jsonfile/storage.go. The encoding of JSON and the file system are outside the
-- repository: `Disk` is what the store asks of them. A write of the temporary file, of the
-- directory or the rename may fail at any time, which is the Boolean list `faults`: one entry for
-- each coming attempt to persist.
pub mod Durability
use gamifykit.Prelude.{◌≡◌, [], ◌∷◌, List, Bool, true, false, Option, none, some, Result, ok, err}
use gamifykit.Prelude.Int.{ℤ, pos}
use gamifykit.Prelude.GoMap.{get, get_or, put}
use gamifykit.Prelude.Text.{Text, text_key}
use gamifykit.Core.{UserId, Metric, Badge, Time, Error, backend, UserState}
use gamifykit.Core.Arith.{add_safe}
use gamifykit.Core.Clone.{clone}
use gamifykit.Engine.Storage.{Storage}
use gamifykit.Stores.Table.{Table, new_user, table_profile}

-- `json.MarshalIndent` and `json.Unmarshal` of the table, with the text of their error, and of
-- the error of a file operation. What is read back from an encoded table shows the same users.
pub record Json : Type 1 where
  pub Bytes : Type 0
  pub encode : Table → Bytes
  pub decode : Bytes → Option Table
  pub decode-encode :
      (t : Table)
      → (t' : Table) × (decode (encode t) ≡ some t')
        × ((u : UserId) → table_profile t' u ≡ table_profile t u)
  pub syntax_error : Text
  pub io_error : Text

-- The store, with the file it persists to: `none` is a file that does not exist.
pub record Store (Bytes : Type 0) : Type 0 where
  pub users : Table
  pub file : Option Bytes
  pub faults : List Bool

module _ (json : Json) where
  abbrev pub FileStore : Type 0
  FileStore = Store json.Bytes

  -- `New` on a file, or on no file.
  unfoldable pub new_store : Option json.Bytes → List Bool → Result Error FileStore
  new_store none faults = ok (record { users = []; file = none; faults = faults })
  new_store (some bytes) faults = elim (json.decode bytes) [
    | none ↦ err (backend json.syntax_error)
    | some raw ↦ ok (record { users = raw; file = some bytes; faults = faults })
  ]

  -- `persist`: the rename makes it all or nothing.
  abbrev pub persist_on : List Bool → FileStore → Option Error × FileStore
  persist_on [] s = (none, record s { file = some (json.encode s.users) })
  persist_on (true ∷ faults) s = (some (backend json.io_error), record s { faults = faults })
  persist_on (false ∷ faults) s =
      (none, record s { file = some (json.encode s.users); faults = faults })

  unfoldable pub persist : FileStore → Option Error × FileStore
  persist s = persist_on s.faults s

  unfoldable pub get_user : FileStore → UserId → Time → UserState × FileStore
  get_user s user now = elim (get s.users user) [
    | some st ↦ (st, s)
    | none ↦ (new_user user now, record s { users = put s.users user (new_user user now) })
  ]

  unfoldable pub add_points : FileStore → Time → UserId → Metric → ℤ → Result Error ℤ × FileStore
  add_points s now user metric delta =
      let (st, s') = get_user s user now in
      elim (add_safe (get_or st.points metric (pos 0)) delta) [
        | err e ↦ (err e, s')
        | ok next ↦
            let st' : UserState = record st { points = put st.points metric next; updated = now } in
            let (failed, s'') = persist (record s' { users = put s'.users user st' }) in
            (elim failed [ none ↦ ok next | some e ↦ err e ], s'')
      ]

  unfoldable pub award_badge : FileStore → Time → UserId → Badge → Option Error × FileStore
  award_badge s now user badge =
      let (st, s') = get_user s user now in
      let st' : UserState = record st { badges = put st.badges badge tt; updated = now } in
      persist (record s' { users = put s'.users user st' })

  unfoldable pub get_state : FileStore → Time → UserId → Result Error UserState × FileStore
  get_state s now user = let (st, s') = get_user s user now in (ok (clone st), s')

  unfoldable pub set_level : FileStore → Time → UserId → Metric → ℤ → Option Error × FileStore
  set_level s now user metric level =
      let (st, s') = get_user s user now in
      let st' : UserState = record st { levels = put st.levels metric level; updated = now } in
      persist (record s' { users = put s'.users user st' })
