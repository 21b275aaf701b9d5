-- ===== src/Stores/Table/Backend.antt =====
-- The methods of a backend that keeps a table of users, over its way to find a record and to
-- stamp it: they keep the contract of a storage. The backends instantiate this.
use gamifykit.Prelude.{
  [], ◌≡◌, refl, ◌∙◌, ap, arith, none, Option, ok, err, ite, Result, Result-cases, inl, inr,
}
use gamifykit.Prelude.Int.{ℤ, pos}
use gamifykit.Prelude.GoMap.{get, get_or, put}
use gamifykit.Prelude.Text.{text_key, Text-discrete}
use gamifykit.Core.{UserId, Time, UserState, Metric, Badge, Error}
use gamifykit.Core.Arith.{add_safe}
use gamifykit.Core.Clone.{clone, clone-SameState}
use gamifykit.Engine.Storage.{
  Storage, Contract, Profile-path, shown, with_points, with_level, with_badge,
}
use gamifykit.Engine.Service.Levels.{IsReliable}
use gamifykit.Engine.Storage.History.{IsExact}
use gamifykit.Stores.Table.{
  IsFiled-empty, Table, IsFiled, Finds, table_profile, table_profile-refile, refile-IsFiled,
  shown-put_points, shown-put_level, shown-put_badge,
}

module _ (lookup : Table → UserId → Time → UserState × Table)
    (stamp : Time → UserState → Time) where
  abbrev pub grow : Table → Time → UserId → Metric → ℤ → Result Error ℤ × Table
  grow t now user metric delta =
      let (rec, t') = lookup t user now in
      elim (add_safe (get_or rec.points metric (pos 0)) delta) [
        | err e ↦ (err e, t')
        | ok next ↦ (
          ok next,
          put t' user (record rec { points = put rec.points metric next; updated = stamp now rec }),
        )
      ]

  abbrev pub decorate : Table → Time → UserId → Badge → Option Error × Table
  decorate t now user badge =
      let (rec, t') = lookup t user now in
      (none, put t' user (record rec { badges = put rec.badges badge tt; updated = stamp now rec }))

  abbrev pub snapshot : Table → Time → UserId → Result Error UserState × Table
  snapshot t now user = let (rec, t') = lookup t user now in (ok (clone rec), t')

  abbrev pub promote : Table → Time → UserId → Metric → ℤ → Option Error × Table
  promote t now user metric level =
      let (rec, t') = lookup t user now in
      (
        none,
        put t' user (record rec { levels = put rec.levels metric level; updated = stamp now rec }),
      )

  abbrev pub table_storage : Storage
  table_storage = record {
    State = Table;
    add_points = grow;
    award_badge = decorate;
    get_state = snapshot;
    set_level = promote;
  }

pub shown-clone : (st : UserState) → shown (clone st) ≡ shown st
shown-clone st =
    let same = clone-SameState st in
    Profile-path (λ m. ground (arith, same.same_points m)) (λ m. ground (arith, same.same_levels m))
      (λ b. ground (arith, same.same_badges b))

user_id-clone : (st : UserState) → (clone st).user_id ≡ st.user_id
unfolding clone
user_id-clone st = refl

module _ (lookup : Table → UserId → Time → UserState × Table) (stamp : Time → UserState → Time)
    (finds : (t : Table) (u : UserId) (now : Time)
      → Finds t u (lookup t u now).0 (lookup t u now).1)
    (s : Table) (now : Time) (u : UserId) where
  found : Finds s u (lookup s u now).0 (lookup s u now).1
  found = finds s u now

  abbrev rec : UserState
  rec = (lookup s u now).0

  abbrev grown : Metric → ℤ → UserState
  grown m n = record rec { points = put rec.points m n; updated = stamp now rec }

  pub add_points-IsFiled :
      (m : Metric) (d : ℤ) → IsFiled s → IsFiled (grow lookup stamp s now u m d).1
  add_points-IsFiled m d v = elim (Result-cases (add_safe (get_or rec.points m (pos 0)) d)) [
    | inl (n, e) ↦ rw (e, grow) (refile-IsFiled found (grown m n) refl v)
    | inr (_, e) ↦ rw (e, grow) (found.still_filed v)
  ]

  -- The balance that the addition starts from.
  found_points :
      (m : Metric) → get_or (lookup s u now).0.points m (pos 0) ≡ (table_profile s u).points m
  found_points m = ap (λ p. p.points m) found.seen

  pub add_points_grows :
      (m : Metric) (d n : ℤ) (t : Table)
      → grow lookup stamp s now u m d ≡ (ok n, t)
      → (add_safe ((table_profile s u).points m) d ≡ ok n)
        × ((v : UserId)
            → table_profile t v
              ≡ ite (Text-discrete u v) (with_points m n (table_profile s v)) (table_profile s v))
  add_points_grows m d n t h =
      let e : t ≡ put (lookup s u now).1 u (grown m n) = ground arith in
      (
        ground (arith, found_points m),
        λ v. rw e (
            table_profile-refile found (grown m n) (with_points m n)
              (shown-put_points rec m n (stamp now rec)) v),
      )

  pub add_points_refuses :
      (m : Metric) (d : ℤ) (e : Error)
      → add_safe ((table_profile s u).points m) d ≡ err e
      → ((grow lookup stamp s now u m d).0 ≡ err e)
        × ((v : UserId) → table_profile (grow lookup stamp s now u m d).1 v ≡ table_profile s v)
  add_points_refuses m d e h =
      (ground (arith, found_points m), λ v. ground (arith, found_points m, found.kept v))

  pub get_state_shows :
      (shot : UserState) (t : Table)
      → IsFiled s
      → snapshot lookup stamp s now u ≡ (ok shot, t)
      → (shot.user_id ≡ u)
        × (shown shot ≡ table_profile s u)
        × ((v : UserId) → table_profile t v ≡ table_profile s v)
  get_state_shows shot t f h =
      let e : shot ≡ clone rec = ground arith in
      let e' : t ≡ (lookup s u now).1 = ground arith in
      (
        ap (λ st. st.user_id) e ∙ user_id-clone rec ∙ found.owned f,
        ap shown e ∙ shown-clone rec ∙ found.seen,
        rw e' found.kept,
      )

  pub badge_after :
      (b : Badge) (t : Table)
      → decorate lookup stamp s now u b ≡ (none, t)
      → (v : UserId)
      → table_profile t v
        ≡ ite (Text-discrete u v) (with_badge b (table_profile s v)) (table_profile s v)
  badge_after b t h v =
      let st : UserState = record rec { badges = put rec.badges b tt; updated = stamp now rec } in
      let e : t ≡ put (lookup s u now).1 u st = ground arith in
      rw e (table_profile-refile found st (with_badge b) (shown-put_badge rec b (stamp now rec)) v)

  pub level_after :
      (m : Metric) (n : ℤ) (t : Table)
      → promote lookup stamp s now u m n ≡ (none, t)
      → (v : UserId)
      → table_profile t v
        ≡ ite (Text-discrete u v) (with_level m n (table_profile s v)) (table_profile s v)
  level_after m n t h v =
      let st : UserState = record rec { levels = put rec.levels m n; updated = stamp now rec } in
      let e : t ≡ put (lookup s u now).1 u st = ground arith in
      rw e
        (table_profile-refile found st (with_level m n) (shown-put_level rec m n (stamp now rec)) v)

module _ (lookup : Table → UserId → Time → UserState × Table) (stamp : Time → UserState → Time)
    (finds : (t : Table) (u : UserId) (now : Time)
      → Finds t u (lookup t u now).0 (lookup t u now).1) where
  unfoldable pub table_contract : Contract (table_storage lookup stamp)
  table_contract = record {
    profile = table_profile;
    IsValid = IsFiled;
    add_points_valid = add_points-IsFiled lookup stamp finds;
    award_badge_valid = λ s now u b v. refile-IsFiled (finds s u now) _ refl v;
    get_state_valid = λ s now u v. (finds s u now).still_filed v;
    set_level_valid = λ s now u m n v. refile-IsFiled (finds s u now) _ refl v;
    add_points_ok = add_points_grows lookup stamp finds;
    add_points_refused = add_points_refuses lookup stamp finds;
    award_badge_ok = badge_after lookup stamp finds;
    set_level_ok = level_after lookup stamp finds;
    get_state_ok = get_state_shows lookup stamp finds;
  }

pub table-IsReliable :
    (lookup : Table → UserId → Time → UserState × Table) (stamp : Time → UserState → Time)
    → IsReliable (table_storage lookup stamp)
table-IsReliable lookup stamp = record {
  reads = λ s now u. (clone (lookup s u now).0, (lookup s u now).1, refl);
  writes_levels = λ s now u m n. ((promote lookup stamp s now u m n).1, refl);
}

module _ (lookup : Table → UserId → Time → UserState × Table) (stamp : Time → UserState → Time)
    (finds : (t : Table) (u : UserId) (now : Time)
      → Finds t u (lookup t u now).0 (lookup t u now).1) where
  sum_returned :
      (s : Table) (now : Time) (u : UserId) (m : Metric) (d : ℤ)
      → (grow lookup stamp s now u m d).0 ≡ add_safe ((table_profile s u).points m) d
  sum_returned s now u m d =
      let e = found_points lookup stamp finds s now u m in
      rw (← e) (elim (Result-cases (add_safe (get_or (lookup s u now).0.points m (pos 0)) d)) [
        | inl (n, k) ↦ rw (k, grow) refl
        | inr (x, k) ↦ rw (k, grow) refl
      ])

  -- From the empty table on.
  pub table-IsExact : IsExact (table_contract lookup stamp finds) []
  unfolding table_contract table_profile get
  table-IsExact = record {
    starts_valid = IsFiled-empty;
    starts_blank = λ u. refl;
    adds = sum_returned;
    awards = λ s now u b. refl;
    reads = λ s now u. (clone (lookup s u now).0, refl);
    sets = λ s now u m n. refl;
  }
