-- ===== src/Stores/Sql/Additions.antt =====
-- What AddPoints of the SQL store leaves in the database, whatever fails.
use gamifykit.Prelude.{
  ◌≡◌, ◌≢◌, ◌⊎◌, inl, inr, refl, ap, sym, ◌∙◌, arith, true, false, ◌&&◌, ◌||◌, Option, none, some,
  Option-cases, Result, ok, err, Result-cases, subst,
}
use gamifykit.Prelude.Int.{
  ℤ, pos, IsInt64, ltb_ℤ, ◌+ℤ◌, add64, ℤ-discrete, wrap64_of_IsInt64, wrap64_beyond, +ℤ_parts,
}
use gamifykit.Prelude.Text.{text}
use gamifykit.Core.{UserId, Metric, Time, Error, integer_overflow, delta_zero}
use gamifykit.Core.Arith.{add_safe, add_safe_exact}
use gamifykit.Config.Types.{Driver}
use gamifykit.Stores.Database.{Database, Behaves, Content, put_points}
use gamifykit.Stores.Sql.{
  placeholders, or_zero, wrapped, sql_overflow, write_points, commit_points, add_to,
  add_in_transaction, add_points,
}
use gamifykit.Stores.Sql.Outcomes.{commit_cases, begin_cases}

-- The test of the store finds the sums that are no int64: the wrapped sum is on the wrong side.
pub wraps_iff_refused :
    (old d : ℤ)
    → IsInt64 old
    → IsInt64 d
    → d ≢ pos 0
    → (((ltb_ℤ (pos 0) d && ltb_ℤ (add64 old d) old)
            || (ltb_ℤ d (pos 0) && ltb_ℤ old (add64 old d)))
          ≡ false)
        × (add_safe old d ≡ ok (add64 old d))
      ⊎ ((((ltb_ℤ (pos 0) d && ltb_ℤ (add64 old d) old)
              || (ltb_ℤ d (pos 0) && ltb_ℤ old (add64 old d)))
            ≡ true)
          × (add_safe old d ≡ err integer_overflow))
unfolding add64
wraps_iff_refused old d ho hd ne = elim (add_safe_exact old d ho hd) [
  | inl (h, e) ↦ inl (
    ground (arith, wrap64_of_IsInt64 (old +ℤ d), +ℤ_parts old d),
    ground (arith, wrap64_of_IsInt64 (old +ℤ d)),
  )
  | inr (h, e) ↦ inr (ground (arith, wrap64_beyond (old +ℤ d) h, +ℤ_parts old d), e)
]

module _ (db : Database) (b : Behaves db) (driver : Driver)
    (known : b.Understood (placeholders driver)) where
  -- The outcomes of an addition of `d` for the old balance `old`, which `before` shows.
  abbrev pub Added : Result Error ℤ × db.State → Content → UserId → Metric → ℤ → Type 0
  Added r before u m d =
      ((n : ℤ) × (r.0 ≡ ok n)
        × (d ≢ pos 0)
        × (add_safe (or_zero (before.points u m)) d ≡ ok n)
        × (b.content r.1 ≡ put_points u m n before))
      ⊎ ((e : Error) × (r.0 ≡ err e)
          × ((b.content r.1 ≡ before)
              ⊎ ((n : ℤ) × (add_safe (or_zero (before.points u m)) d ≡ ok n)
                  × (b.content r.1 ≡ put_points u m n before))))

  write_points_lem :
      (tx : db.Tx) (now : Time) (u : UserId) (m : Metric) (current : Option ℤ) (n : ℤ)
      → (b.view tx).points u m ≡ current
      → (b.origin (write_points db driver tx now u m current n).1 ≡ b.origin tx)
        × ((write_points db driver tx now u m current n).0 ≡ none
            → b.view (write_points db driver tx now u m current n).1 ≡ put_points u m n (b.view tx))
  unfolding write_points
  write_points_lem tx now u m (some old) n e =
      b.update_points_lem (placeholders driver) tx n now u m old known e
  write_points_lem tx now u m none n e =
      b.insert_points_lem (placeholders driver) tx u m n now known e

  commit_points-Added :
      (tx : db.Tx) (before : Content) (u : UserId) (m : Metric) (d n : ℤ)
      → d ≢ pos 0
      → add_safe (or_zero (before.points u m)) d ≡ ok n
      → b.origin tx ≡ before
      → b.view tx ≡ put_points u m n before
      → Added (commit_points db driver tx n) before u m d
  unfolding commit_points
  commit_points-Added tx before u m d n ne sum o v = elim (commit_cases db b tx) [
    | inl (h, k) ↦ inl (n, ground arith, ne, sum, k ∙ v)
    | inr (e, h, inl k) ↦
        inr (wrapped (text "failed to commit transaction: ") e, ground arith, inl (k ∙ o))
    | inr (e, h, inr k) ↦
        inr (wrapped (text "failed to commit transaction: ") e, ground arith, inr (n, sum, k ∙ v))
  ]

  add_to-Added :
      (tx : db.Tx) (before : Content) (now : Time) (u : UserId) (m : Metric) (d : ℤ)
      → IsInt64 (or_zero (before.points u m))
      → IsInt64 d
      → d ≢ pos 0
      → b.origin tx ≡ before
      → b.view tx ≡ before
      → Added (add_to db driver tx now u m (before.points u m) d) before u m d
  unfolding add_to
  add_to-Added tx before now u m d ho hd ne o v =
      let old = or_zero (before.points u m) in
      elim (wraps_iff_refused old d ho hd ne) [
        | inr (t, e) ↦ rw (t, add_to) (inr (sql_overflow, refl, inl (b.rollback_lem tx ∙ o)))
        | inl (t, e) ↦
            let (o', stored) =
              write_points_lem tx now u m (before.points u m) (add64 old d)
                (ap (λ c. c.points u m) v) in
            elim (Option-cases
              (write_points db driver tx now u m (before.points u m) (add64 old d)).0) [
                | inl k ↦
                    rw (t, k, add_to)
                      (commit_points-Added _ before u m d (add64 old d) ne e (o' ∙ o)
                        (stored k ∙ ap (put_points u m (add64 old d)) v))
                | inr (f, k) ↦ rw (t, k, add_to) (inr (_, refl, inl (b.rollback_lem _ ∙ o' ∙ o)))
              ]
      ]

  add_in_transaction-Added :
      (s : db.State) (now : Time) (u : UserId) (m : Metric) (d : ℤ)
      → IsInt64 (or_zero ((b.content s).points u m))
      → IsInt64 d
      → d ≢ pos 0
      → Added (add_in_transaction db driver s now u m d) (b.content s) u m d
  unfolding add_in_transaction
  add_in_transaction-Added s now u m d ho hd ne = elim (begin_cases db b s) [
    | inr (e, s', h, k) ↦ rw (h, add_in_transaction) (inr (_, refl, inl k))
    | inl (tx, h, v, o) ↦
        let (o', v', found) = b.select_points_lem (placeholders driver) tx u m known in
        elim (Result-cases (db.select_points (placeholders driver) tx u m).0) [
          | inr (e, k) ↦
              rw (h, k, add_in_transaction) (inr (_, refl, inl (b.rollback_lem _ ∙ o' ∙ o)))
          | inl (current, k) ↦
              rw (h, k, add_in_transaction)
                (subst
                  (λ c.
                    Added
                      (add_to db driver (db.select_points (placeholders driver) tx u m).1 now u m c
                        d)
                      (b.content s) u m d)
                  (ap (λ c. c.points u m) (sym v) ∙ found current k)
                  (add_to-Added _ (b.content s) now u m d ho hd ne (o' ∙ o) (v' ∙ v)))
        ]
  ]

  -- On int64 balances and deltas: an addition that returns a total had a delta that is not 0, the
  -- total is the sum that AddSafe gives, and it is stored, and nothing else is changed; an
  -- addition that returns an error has stored that sum or has changed nothing.
  pub add_points-Added :
      (s : db.State) (now : Time) (u : UserId) (m : Metric) (d : ℤ)
      → IsInt64 (or_zero ((b.content s).points u m))
      → IsInt64 d
      → Added (add_points db driver s now u m d) (b.content s) u m d
  unfolding add_points
  add_points-Added s now u m d ho hd = elim (ℤ-discrete d (pos 0)) [
    | yes z ↦
        let refused : add_points db driver s now u m d ≡ (err delta_zero, s) = ground arith in
        rw refused (inr (delta_zero, refl, inl refl))
    | no ne ↦
        let begun : add_points db driver s now u m d ≡ add_in_transaction db driver s now u m d =
          ground arith in
        rw begun (add_in_transaction-Added s now u m d ho hd ne)
  ]
