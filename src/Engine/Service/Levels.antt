-- ===== src/Engine/Service/Levels.antt =====
-- What AddPoints leaves behind with the default rules, over any storage that keeps its contract
-- and whose reads and level writes do not fail.
use gamifykit.Prelude.{
  ◌≡◌, refl, ap, ◌∙◌, subst, arith, List, [], ◌∷◌, ite, if_pos, none, ok, if◌then◌else◌,
}
use gamifykit.Prelude.Int.{ℤ, ltb_ℤ, ◌≤ℤ◌}
use gamifykit.Prelude.Text.{Text-discrete}
use gamifykit.Core.{UserId, Metric, Time, UserState, metric_xp}
use gamifykit.Core.Arith.{add_safe}
use gamifykit.Core.Level.{Floats, default_level}
use gamifykit.Core.UserName.{CaseTable, normalize_user_id}
use gamifykit.Core.Events.{Event, EventType-discrete, new_points_added, new_level_up}
use gamifykit.Core.Rules.{default_rule_engine, level_up_rule}
use gamifykit.Engine.Storage.{Storage, Contract, Profile, shown, with_points, with_level}
use gamifykit.Engine.Service.{
  GamifyService, publish, apply_derived, get_state, run_rules, evaluate_rules, add_points,
}
use gamifykit.Engine.Service.Outcomes.{
  add_points_inv, publish_all, store_levels, apply_derived_parts,
}

-- Reads and level writes return no error.
pub record IsReliable (S : Storage) : Type 0 where
  pub reads :
      (s : S.State) (now : Time) (u : UserId)
      → (shot : UserState) × (t : S.State) × (S.get_state s now u ≡ (ok shot, t))
  pub writes_levels :
      (s : S.State) (now : Time) (u : UserId) (m : Metric) (n : ℤ)
      → (t : S.State) × (S.set_level s now u m n ≡ (none, t))

unchanged_elsewhere :
    (u v : UserId) {p : Profile} (q r a : Profile)
    → p ≡ ite (Text-discrete u v) q r
    → ite (Text-discrete u v) a p ≡ ite (Text-discrete u v) a r
unchanged_elsewhere u v q r a h = ground arith

module _ (floats : Floats) where
  -- The level of a profile brought up to its XP, never down.
  abbrev pub leveled : Metric → Profile → Profile
  leveled metric p =
      ite (Text-discrete metric metric_xp)
        (let level = default_level floats (p.points metric_xp) in
          if ltb_ℤ (p.levels metric_xp) level then with_level metric_xp level p else p)
        p

  abbrev pub level_events : Time → UserId → Metric → Profile → List Event
  level_events now u metric p =
      ite (Text-discrete metric metric_xp)
        (let level = default_level floats (p.points metric_xp) in
          if ltb_ℤ (p.levels metric_xp) level then new_level_up now u metric_xp level ∷ [] else [])
        []

  leveled_current :
      (total : ℤ) (p : Profile)
      → let q = leveled metric_xp (with_points metric_xp total p) in
        (q.points metric_xp ≡ total)
        × (default_level floats total ≤ℤ q.levels metric_xp)
        × (p.levels metric_xp ≤ℤ q.levels metric_xp)
  unfolding Text-discrete
  leveled_current total p = ground arith

  rules-level_events :
      (now : Time) (u : UserId) (metric : Metric) (delta total : ℤ) (shot : UserState)
      → default_rule_engine floats now shot (new_points_added now u metric delta total)
        ≡ level_events now shot.user_id metric (shown shot)
  unfolding default_rule_engine level_up_rule new_points_added EventType-discrete
  rules-level_events now u metric delta total shot = ground arith

  -- EvaluateRules with the default rules does no more than a read: its trigger has no type, so no
  -- rule answers, and no level is stored and nothing published, whatever the XP.
  pub evaluate_rules-get_state :
      {S : Storage} {W : Type 0} (g : GamifyService S W) (now : Time) (user : UserId)
      → (evaluate_rules (default_rule_engine floats) g now user).1 ≡ (get_state g now user).1
  unfolding evaluate_rules default_rule_engine level_up_rule apply_derived get_state
      EventType-discrete
  evaluate_rules-get_state {S} g now user = ground arith

  module _ {S : Storage} (contract : Contract S) (reliable : IsReliable S) where
    open contract use {profile, IsValid}

    store-level_events :
        (s : S.State) (now : Time) (u : UserId) (metric : Metric) (p : Profile)
        → profile s u ≡ p
        → (v : UserId)
        → profile (store_levels S s now (level_events now u metric p)) v
          ≡ ite (Text-discrete u v) (leveled metric p) (profile s v)
    unfolding store_levels new_level_up EventType-discrete
    store-level_events s now u metric p same v =
        let level = default_level floats (p.points metric_xp) in
        let (t, w) = reliable.writes_levels s now u metric_xp level in
        ground (arith, w, contract.set_level_ok s now u metric_xp level t w v)

    run_rules-apply_derived :
        {W : Type 0} (g : GamifyService S W) (now : Time) (u : UserId) (metric : Metric)
        (delta total : ℤ) (shot : UserState) (t : S.State)
        → IsValid g.storage
        → S.get_state g.storage now u ≡ (ok shot, t)
        → run_rules (default_rule_engine floats) g now u (new_points_added now u metric delta total)
          ≡ apply_derived
              (record g { storage = t })
              now
              (level_events now u metric (profile g.storage u))
    unfolding run_rules get_state
    run_rules-apply_derived g now u metric delta total shot t valid e =
        let (who, seen, kept) = contract.get_state_ok g.storage now u shot t valid e in
        ground (arith, rules-level_events now u metric delta total shot)

    -- The rules run on the profile that the addition left, and see exactly that profile.
    run_rules-profile :
        {W : Type 0} (g : GamifyService S W) (now : Time) (u : UserId) (metric : Metric)
        (delta total : ℤ)
        → IsValid g.storage
        → let g' =
            run_rules
              (default_rule_engine floats)
              g
              now
              u
              (new_points_added now u metric delta total) in
          ((v : UserId)
            → profile g'.storage v
              ≡ ite
                  (Text-discrete u v)
                  (leveled metric (profile g.storage u))
                  (profile g.storage v))
          × ((g'.bus, g'.env)
              ≡ publish_all g.bus g.env (level_events now u metric (profile g.storage u)))
    run_rules-profile g now u metric delta total valid =
        let (shot, t, e) = reliable.reads g.storage now u in
        let (who, seen, kept) = contract.get_state_ok g.storage now u shot t valid e in
        let events = level_events now u metric (profile g.storage u) in
        let (stored, published) = apply_derived_parts (record g { storage = t }) now events in
        rw (run_rules-apply_derived g now u metric delta total shot t valid e, stored)
          (
            λ v.
                store-level_events t now u metric (profile g.storage u) (kept u) v
                ∙ ap (ite (Text-discrete u v) (leveled metric (profile g.storage u))) (kept v),
            published,
          )

    -- Over a storage in a valid state that keeps its contract and whose reads and level writes do
    -- not fail, a successful AddPoints with the default rules has these effects, for the normalised
    -- user and on the whole storage: the metric grows by exactly `delta`; if it is XP, the level is
    -- then brought up to that of the new XP, unless it is there or above; no other metric, level,
    -- badge or user changes. The bus gets the event of the points and after it, exactly if the
    -- level rose, the event of the level.
    pub add_points-profile :
        {W : Type 0} (case_table : CaseTable) (g : GamifyService S W) (now : Time) (user : UserId)
        (metric : Metric) (delta total : ℤ) (g' : GamifyService S W)
        → IsValid g.storage
        → add_points (default_rule_engine floats) case_table g now user metric delta
          ≡ (ok total, g')
        → (u : UserId) × (normalize_user_id case_table user ≡ ok u)
          × (add_safe ((profile g.storage u).points metric) delta ≡ ok total)
          × (let after = with_points metric total (profile g.storage u) in
              ((v : UserId)
                → profile g'.storage v
                  ≡ ite (Text-discrete u v) (leveled metric after) (profile g.storage v))
              × ((g'.bus, g'.env)
                  ≡ publish_all g.bus g.env (
                      new_points_added now u metric delta total ∷ level_events now u metric after)))
    unfolding publish_all publish
    add_points-profile case_table g now user metric delta total g' valid h =
        let (u, normal, s, added, e) =
          add_points_inv (default_rule_engine floats) case_table g now user metric delta total g'
            h in
        let (sum, grown) = contract.add_points_ok g.storage now u metric delta total s added in
        let valid_s =
          subst IsValid (ap (λ r. r.1) added)
            (contract.add_points_valid g.storage now u metric delta valid) in
        let ev = new_points_added now u metric delta total in
        let same : profile s u ≡ with_points metric total (profile g.storage u) =
          grown u ∙ if_pos (Text-discrete u u) refl _ _ in
        let (kept, published) = rw same at (
          run_rules-profile (publish (record g { storage = s }) ev) now u metric delta total
            valid_s) in
        (
          u,
          normal,
          sum,
          (λ v. rw e (kept v ∙ unchanged_elsewhere u v _ _ _ (grown v)), rw e published),
        )

    -- So the level never lags behind the XP: over such a storage in a valid state, after a successful
    -- AddPoints of XP with the default rules the level of the user is at least that of the XP, and at
    -- least what it was.
    pub add_points_level_current :
        {W : Type 0} (case_table : CaseTable) (g : GamifyService S W) (now : Time) (user : UserId)
        (delta total : ℤ) (g' : GamifyService S W)
        → IsValid g.storage
        → add_points (default_rule_engine floats) case_table g now user metric_xp delta
          ≡ (ok total, g')
        → (u : UserId) × (normalize_user_id case_table user ≡ ok u)
          × ((profile g'.storage u).points metric_xp ≡ total)
          × (default_level floats total ≤ℤ (profile g'.storage u).levels metric_xp)
          × ((profile g.storage u).levels metric_xp ≤ℤ (profile g'.storage u).levels metric_xp)
    add_points_level_current case_table g now user delta total g' valid h =
        let (u, normal, sum, (kept, published)) =
          add_points-profile case_table g now user metric_xp delta total g' valid h in
        let mine = kept u ∙ if_pos (Text-discrete u u) refl _ _ in
        let (points, level, above) = leveled_current total (profile g.storage u) in
        (u, normal, rw mine points, rw mine level, rw mine above)
