-- ===== src/Stores/Sql/Outcomes.antt =====
-- What a call of the SQL store leaves in the database, whatever fails.
use gamifykit.Prelude.{
  ◌≡◌, ◌⊎◌, inl, inr, refl, ap, fun_ext, sym, ◌∙◌, arith, Bool, true, false, Option, none, some,
  Option-cases, ok, err, Result-cases,
}
use gamifykit.Prelude.Int.{ℤ}
use gamifykit.Prelude.Text.{Text}
use gamifykit.Core.{UserId, Metric, Badge, Time, Error, backend}
use gamifykit.Engine.Storage.{is_some}
use gamifykit.Config.Types.{Driver}
use gamifykit.Stores.Database.{Database, Behaves, Content, put_level, put_badge}
use gamifykit.Stores.Sql.{placeholders, finish, commit_last, award_badge, set_level}

put_badge_same :
    (u : UserId) (badge : Badge) (c : Content)
    → is_some (c.badges u badge) ≡ true
    → put_badge u badge c ≡ c
put_badge_same u badge c h = λ i. record c { badges = fun_ext (λ v. fun_ext (λ j. same v j)) i }
  where
    same : (v : UserId) (j : Badge) → (put_badge u badge c).badges v j ≡ c.badges v j
    same v j = elim (Option-cases (c.badges u badge)) [
      | inl e ↦ absurd (ground arith)
      | inr (_, e) ↦ ground arith
    ]

module _ (db : Database) (b : Behaves db) where
  -- All of a call is stored, or nothing of it.
  abbrev pub AllOrNothing : db.State → Content → Content → Type 0
  AllOrNothing s before after = (b.content s ≡ before) ⊎ (b.content s ≡ after)

  -- A call that returns no error has stored its change; one that returns an error has stored all
  -- of it or nothing.
  abbrev pub Done : Option Error × db.State → Content → Content → Type 0
  Done r before after =
      ((r.0 ≡ none) × (b.content r.1 ≡ after))
      ⊎ ((e : Error) × (r.0 ≡ some e) × AllOrNothing r.1 before after)

  pub commit_cases :
      (tx : db.Tx)
      → (((db.commit tx).0 ≡ none) × (b.content (db.commit tx).1 ≡ b.view tx))
        ⊎ ((e : Text) × ((db.commit tx).0 ≡ some e)
            × AllOrNothing (db.commit tx).1 (b.origin tx) (b.view tx))
  commit_cases tx = elim (Option-cases (db.commit tx).0) [
    | inl h ↦ inl (h, b.commit_ok tx (db.commit tx).1 (λ i. (h i, (db.commit tx).1)))
    | inr (e, h) ↦ inr (e, h, b.commit_failed tx e (db.commit tx).1 (λ i. (h i, (db.commit tx).1)))
  ]

  pub begin_cases :
      (s : db.State)
      → ((tx : db.Tx) × (db.begin s ≡ ok tx)
          × (b.view tx ≡ b.content s)
          × (b.origin tx ≡ b.content s))
        ⊎ ((e : Text) × (s' : db.State) × (db.begin s ≡ err (e, s')) × (b.content s' ≡ b.content s))
  begin_cases s = elim (Result-cases (db.begin s)) [
    | inl (tx, h) ↦ let (v, o) = b.begin_ok s tx h in inl (tx, h, v, o)
    | inr ((e, s'), h) ↦ inr (e, s', h, b.begin_failed s e s' h)
  ]

  commit_last-Done :
      (driver : Driver) (tx : db.Tx) → Done (commit_last db driver tx) (b.origin tx) (b.view tx)
  commit_last-Done driver tx = elim (commit_cases tx) [
    | inl (h, k) ↦ inl (ground arith, k)
    | inr (e, h, k) ↦ inr (backend e, ground arith, k)
  ]

  finish-Done :
      (driver : Driver) (what : Text) (r : Option Text × db.Tx) (before after : Content)
      → b.origin r.1 ≡ before
      → (r.0 ≡ none → b.view r.1 ≡ after)
      → Done (finish db driver what r) before after
  unfolding finish
  finish-Done driver what (none, tx) before after o v =
      rw (← o, ← v refl) (commit_last-Done driver tx)
  finish-Done driver what (some e, tx) before after o v = inr (_, refl, inl (b.rollback_lem tx ∙ o))

  -- A transaction that changes nothing is done when what it should store is there.
  stay :
      {r : Option Error × db.State} {o v before after : Content}
      → Done r o v
      → o ≡ before
      → v ≡ before
      → after ≡ before
      → Done r before after
  stay (inl (h, k)) p q same = inl (h, k ∙ q ∙ sym same)
  stay (inr (e, h, inl k)) p q same = inr (e, h, inl (k ∙ p))
  stay (inr (e, h, inr k)) p q same = inr (e, h, inl (k ∙ q))

  module _ (driver : Driver) (known : b.Understood (placeholders driver)) where
    -- An award that returns no error has stored the badge; one that returns an error has stored
    -- the badge or has changed nothing.
    pub award_badge-Done :
        (s : db.State) (now : Time) (u : UserId) (badge : Badge)
        → Done (award_badge db driver s now u badge) (b.content s) (put_badge u badge (b.content s))
    unfolding award_badge
    award_badge-Done s now u badge = elim (begin_cases s) [
      | inr (e, s', h, k) ↦ rw (h, award_badge) (inr (_, refl, inl k))
      | inl (tx, h, v, o) ↦
          let (o', v', found) = b.exists_badge_lem (placeholders driver) tx u badge known in
          elim (Result-cases (db.exists_badge (placeholders driver) tx u badge).0) [
            | inr (e, k) ↦ rw (h, k, award_badge) (inr (_, refl, inl (b.rollback_lem _ ∙ o' ∙ o)))
            | inl (true, k) ↦
                let same = put_badge_same u badge (b.view tx) (found true k) in
                rw (h, k, award_badge)
                  (stay (commit_last-Done driver _) (o' ∙ o) (v' ∙ v) (rw v at same))
            | inl (false, k) ↦
                let (o'', stored) =
                  b.insert_badge_lem (placeholders driver) _ u badge now known
                    (ap (λ c. is_some (c.badges u badge)) v' ∙ found false k) in
                rw (h, k, award_badge)
                  (finish-Done driver _ _ (b.content s) _ (o'' ∙ o' ∙ o)
                    (λ e. stored e ∙ ap (put_badge u badge) (v' ∙ v)))
          ]
    ]

    -- The same of a level that is set.
    pub set_level-Done :
        (s : db.State) (now : Time) (u : UserId) (m : Metric) (n : ℤ)
        → Done (set_level db driver s now u m n) (b.content s) (put_level u m n (b.content s))
    unfolding set_level
    set_level-Done s now u m n = elim (begin_cases s) [
      | inr (e, s', h, k) ↦ rw (h, set_level) (inr (_, refl, inl k))
      | inl (tx, h, v, o) ↦
          let (o', v', found) = b.exists_level_lem (placeholders driver) tx u m known in
          let seen : (c : Bool)
              → is_some ((b.view tx).levels u m) ≡ c
              → is_some ((b.view (db.exists_level (placeholders driver) tx u m).1).levels u m) ≡ c =
            λ c e. ap (λ d. is_some (d.levels u m)) v' ∙ e in
          elim (Result-cases (db.exists_level (placeholders driver) tx u m).0) [
            | inr (e, k) ↦ rw (h, k, set_level) (inr (_, refl, inl (b.rollback_lem _ ∙ o' ∙ o)))
            | inl (true, k) ↦
                let (o'', stored) =
                  b.update_level_lem (placeholders driver) _ n now u m known
                    (seen true (found true k)) in
                rw (h, k, set_level)
                  (finish-Done driver _ _ (b.content s) _ (o'' ∙ o' ∙ o)
                    (λ e. stored e ∙ ap (put_level u m n) (v' ∙ v)))
            | inl (false, k) ↦
                let (o'', stored) =
                  b.insert_level_lem (placeholders driver) _ u m n now known
                    (seen false (found false k)) in
                rw (h, k, set_level)
                  (finish-Done driver _ _ (b.content s) _ (o'' ∙ o' ∙ o)
                    (λ e. stored e ∙ ap (put_level u m n) (v' ∙ v)))
          ]
    ]
