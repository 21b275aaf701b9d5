-- ===== src/Engine/Service/Outcomes.antt =====
-- What a call of the service does to the bus, and what it does when it fails.
use gamifykit.Prelude.{◌≡◌, refl, arith, List, [], ◌∷◌, ite, none, ok, err, Result-cases, inl, inr}
use gamifykit.Prelude.Int.{ℤ}
use gamifykit.Core.{UserId, Metric, Badge, Time, Error}
use gamifykit.Core.UserName.{CaseTable, normalize_user_id}
use gamifykit.Core.BadgeName.{validate_badge_id}
use gamifykit.Core.Events.{Event, EventType-discrete, level_up, new_points_added, new_badge_awarded}
use gamifykit.Core.Rules.{Rule}
use gamifykit.Engine.Storage.{Storage}
use gamifykit.Engine.Bus
use gamifykit.Engine.Bus.{EventBus}
use gamifykit.Engine.Service.{
  GamifyService, publish, store_level, apply_derived, run_rules, add_points_to, add_points,
  award_badge_to, award_badge,
}

module _ {W : Type 0} where
  -- The bus and what stands behind it after some publications.
  unfoldable pub publish_all : EventBus W → W → List Event → EventBus W × W
  publish_all e w [] = (e, w)
  publish_all e w (ev ∷ evs) = let (e', w') = Bus.publish e ev w in publish_all e' w' evs

-- The storage after the levels of some derived events are stored.
unfoldable pub store_levels : (S : Storage) → S.State → Time → List Event → S.State
store_levels S s now [] = s
store_levels S s now (d ∷ ds) =
    store_levels S
      (ite (EventType-discrete d.typ level_up) (S.set_level s now d.user_id d.metric d.level).1 s)
      now ds

module _ {S : Storage} {W : Type 0} where
  pub apply_derived_parts :
      (g : GamifyService S W) (now : Time) (ds : List Event)
      → ((apply_derived g now ds).storage ≡ store_levels S g.storage now ds)
        × (((apply_derived g now ds).bus, (apply_derived g now ds).env)
            ≡ publish_all g.bus g.env ds)
  unfolding apply_derived store_levels publish_all publish store_level
  apply_derived_parts g now [] = (refl, refl)
  apply_derived_parts g now (d ∷ ds) =
      ground (arith, apply_derived_parts (publish (store_level g now d) d) now ds)

  -- An error of `AddPoints` reaches the caller alone: nothing is published, the bus and the
  -- handlers' state are what they were.
  pub add_points_error_silent :
      (rules : Rule) (case_table : CaseTable) (g : GamifyService S W) (now : Time) (user : UserId)
      (metric : Metric) (delta : ℤ) (e : Error) (g' : GamifyService S W)
      → add_points rules case_table g now user metric delta ≡ (err e, g')
      → (g'.bus ≡ g.bus) × (g'.env ≡ g.env)
  unfolding add_points add_points_to
  add_points_error_silent rules case_table g now user metric delta e g' h = ground arith

  -- A badge that the validation refuses, or a blank user, never reaches the storage; and a
  -- successful award publishes exactly one event, for the normalised user and the badge as given.
  pub award_badge_outcome :
      (case_table : CaseTable) (g : GamifyService S W) (now : Time) (user : UserId) (badge : Badge)
      (g' : GamifyService S W)
      → award_badge case_table g now user badge ≡ (none, g')
      → (u : UserId) × (normalize_user_id case_table user ≡ ok u)
        × (validate_badge_id badge ≡ none)
        × (S.award_badge g.storage now u badge ≡ (none, g'.storage))
        × ((g'.bus, g'.env) ≡ publish_all g.bus g.env (new_badge_awarded now u badge ∷ []))
  unfolding award_badge award_badge_to publish publish_all
  award_badge_outcome case_table g now user badge g' h = ground arith

  -- A call of `AddPoints` that succeeds passed both checks and the storage, published the event of
  -- the points and ran the rules.
  pub add_points_inv :
      (rules : Rule) (case_table : CaseTable) (g : GamifyService S W) (now : Time) (user : UserId)
      (metric : Metric) (delta total : ℤ) (g' : GamifyService S W)
      → add_points rules case_table g now user metric delta ≡ (ok total, g')
      → (u : UserId) × (normalize_user_id case_table user ≡ ok u)
        × (s : S.State) × (S.add_points g.storage now u metric delta ≡ (ok total, s))
        × (g'
            ≡ run_rules rules
                (publish (record g { storage = s }) (new_points_added now u metric delta total))
                now
                u
                (new_points_added now u metric delta total))
  unfolding add_points add_points_to
  add_points_inv rules case_table g now user metric delta total g' h =
      elim (Result-cases (normalize_user_id case_table user)) [
        | inl (u, p) ↦
            (u, p, (S.add_points g.storage now u metric delta).1, ground arith, ground arith)
        | inr (e, p) ↦ absurd (ground arith)
      ]
