-- ===== src/Stores/JsonFile/Durability.antt =====
-- What the file holds after a call, and after a call that failed to write it.
use gamifykit.Prelude.{
  ◌≡◌, refl, ◌∙◌, ap, arith, ite, some, Option-cases, Bool, true, List, ◌∷◌, inl, inr, ok, err,
}
use gamifykit.Prelude.Int.{ℤ, pos}
use gamifykit.Prelude.GoMap.{get, get_or, put}
use gamifykit.Prelude.Text.{text_key, Text-discrete}
use gamifykit.Core.{UserId, Metric, Time, UserState, backend}
use gamifykit.Core.Arith.{add_safe}
use gamifykit.Engine.Storage.{with_points}
use gamifykit.Stores.Table.{
  Table, Finds, table_profile, find_existing-Finds, find_new-Finds, table_profile-refile,
  shown-put_points,
}
use gamifykit.Stores.JsonFile.{Json, FileStore, new_store, persist, get_user, add_points}

module _ (json : Json) where
  get_user-Finds :
      (s : FileStore json) (u : UserId) (now : Time)
      → Finds s.users u (get_user json s u now).0 (get_user json s u now).1.users
  unfolding get_user
  get_user-Finds s u now = elim (Option-cases (get s.users u)) [
    | inl h ↦ rw (h, get_user) (find_new-Finds s.users u now h)
    | inr (st, h) ↦ rw (h, get_user) (find_existing-Finds s.users u st h)
  ]

  get_user_keeps :
      (s : FileStore json) (u : UserId) (now : Time)
      → ((get_user json s u now).1.file ≡ s.file) × ((get_user json s u now).1.faults ≡ s.faults)
  unfolding get_user
  get_user_keeps s u now = ground arith

  module _ (s : FileStore json) (now : Time) (u : UserId) (m : Metric) (d : ℤ) where
    abbrev rec : UserState
    rec = (get_user json s u now).0

    abbrev grown : ℤ → Table
    grown n =
        put (get_user json s u now).1.users u
          (record rec { points = put rec.points m n; updated = now })

    abbrev pub Grown : ℤ → Table → Type 0
    Grown n t =
        (v : UserId)
        → table_profile t v
          ≡ ite (Text-discrete u v) (with_points m n (table_profile s.users v))
              (table_profile s.users v)

    grown-Grown : (n : ℤ) → Grown n (grown n)
    grown-Grown n =
        table_profile-refile (get_user-Finds s u now)
          (record rec { points = put rec.points m n; updated = now }) (with_points m n)
          (shown-put_points rec m n now)

    -- The table after an addition, and the file: written, or not.
    add_points_writes :
        (n : ℤ) (t : FileStore json)
        → add_points json s now u m d ≡ (ok n, t)
        → (add_safe (get_or rec.points m (pos 0)) d ≡ ok n)
          × (t.users ≡ grown n)
          × (t.file ≡ some (json.encode (grown n)))
    unfolding add_points persist
    add_points_writes n t h = ground arith

    reopened :
        (n : ℤ) (faults : List Bool)
        → (r : FileStore json) × (new_store json (some (json.encode (grown n))) faults ≡ ok r)
          × Grown n r.users
    unfolding new_store
    reopened n faults =
        let (t', e, same) = json.decode-encode (grown n) in
        (
          record { users = t'; file = some (json.encode (grown n)); faults = faults },
          rw (e, new_store) refl,
          λ v. same v ∙ grown-Grown n v,
        )

    -- An addition that returns no error is durable: the sum is that of `AddSafe` on the balance,
    -- the table in memory has it, and a store opened on the file that was left has it too, with
    -- every other metric, level, badge and user as they were before.
    pub add_points_durable :
        (n : ℤ) (t : FileStore json) (faults : List Bool)
        → add_points json s now u m d ≡ (ok n, t)
        → (add_safe ((table_profile s.users u).points m) d ≡ ok n)
          × Grown n t.users
          × ((r : FileStore json) × (new_store json t.file faults ≡ ok r) × Grown n r.users)
    add_points_durable n t faults h =
        let (sum, users, file) = add_points_writes n t h in
        let balance = ap (λ p. p.points m) (get_user-Finds s u now).seen in
        (rw (← balance) sum, rw users (grown-Grown n), rw file (reopened n faults))

    -- An addition whose write fails returns the error and leaves the file as it was, and yet the
    -- sum is in the table in memory: a later read shows points that the caller was told were
    -- not added.
    pub add_points_unwritten :
        (n : ℤ) (rest : List Bool)
        → s.faults ≡ true ∷ rest
        → add_safe ((table_profile s.users u).points m) d ≡ ok n
        → (t : FileStore json) × (add_points json s now u m d ≡ (err (backend json.io_error), t))
          × (t.file ≡ s.file)
          × Grown n t.users
    unfolding add_points persist
    add_points_unwritten n rest f h =
        let balance = ap (λ p. p.points m) (get_user-Finds s u now).seen in
        let keeps = get_user_keeps s u now in
        (
          record (get_user json s u now).1 { users = grown n; faults = rest },
          ground (arith, balance),
          keeps.0,
          grown-Grown n,
        )
