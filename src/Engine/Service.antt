-- ===== src/Engine/Service.antt =====
-- engine/service.go, over any storage, rule engine and case table. The fields of the service
-- are pointers: a method returns the service with what they point to afterwards. Within one call
-- every reading of the clock is `now`.
pub mod Outcomes
pub mod Levels
use gamifykit.Prelude.{ℕ, ite, List, [], ◌∷◌, Option, none, some, Result, ok, err}
use gamifykit.Prelude.Int.{ℤ, pos, ℤ-discrete}
use gamifykit.Core.{UserId, Metric, Badge, Time, Error, UserState, delta_zero}
use gamifykit.Core.UserName.{CaseTable, normalize_user_id}
use gamifykit.Core.BadgeName.{validate_badge_id}
use gamifykit.Core.Events.{
  Event, EventType, EventType-discrete, level_up, blank_event, new_points_added, new_badge_awarded,
}
use gamifykit.Core.Rules.{Rule}
use gamifykit.Engine.Storage.{Storage}
use gamifykit.Engine.Bus
use gamifykit.Engine.Bus.{EventBus, Handler}

pub record GamifyService (S : Storage) (W : Type 0) : Type 0 where
  pub storage : S.State
  pub bus : EventBus W
  pub env : W

module _ {S : Storage} {W : Type 0} where
  -- `g.bus.Publish(ctx, ev)`
  unfoldable pub publish : GamifyService S W → Event → GamifyService S W
  publish g ev = let (bus, env) = Bus.publish g.bus ev g.env in record g { bus = bus; env = env }

  unfoldable pub subscribe : GamifyService S W → EventType → Handler W → GamifyService S W × ℕ
  subscribe g typ handler =
      let (bus, id) = Bus.subscribe g.bus typ handler in (record g { bus = bus }, id)

  unfoldable pub close : GamifyService S W → GamifyService S W
  close g = record g { bus = Bus.close g.bus }

  -- The storage call for a derived level-up; its error is ignored.
  unfoldable pub store_level : GamifyService S W → Time → Event → GamifyService S W
  store_level g now d =
      ite (EventType-discrete d.typ level_up)
        (record g { storage = (S.set_level g.storage now d.user_id d.metric d.level).1 }) g

  -- The loop over the derived events.
  unfoldable pub apply_derived : GamifyService S W → Time → List Event → GamifyService S W
  apply_derived g now [] = g
  apply_derived g now (d ∷ ds) = apply_derived (publish (store_level g now d) d) now ds

  unfoldable pub get_state :
      GamifyService S W → Time → UserId → Result Error UserState × GamifyService S W
  get_state g now user =
      let (found, storage) = S.get_state g.storage now user in
      (found, record g { storage = storage })

  module _ (rules : Rule) where
    -- The part of `AddPoints` behind the publication: an error of `GetState` ends it quietly.
    unfoldable pub run_rules : GamifyService S W → Time → UserId → Event → GamifyService S W
    run_rules g now user ev =
        let (found, g') = get_state g now user in
        elim found [ ok state ↦ apply_derived g' now (rules now state ev) | err e ↦ g' ]

    unfoldable pub evaluate_rules :
        GamifyService S W → Time → UserId → Option Error × GamifyService S W
    evaluate_rules g now user =
        let (found, g') = get_state g now user in
        elim found [
          | ok state ↦ (none, apply_derived g' now (rules now state (blank_event user)))
          | err e ↦ (some e, g')
        ]

    -- `AddPoints` behind the two checks.
    unfoldable pub add_points_to :
        GamifyService S W → Time → UserId → Metric → ℤ → Result Error ℤ × GamifyService S W
    add_points_to g now user metric delta =
        let (added, storage) = S.add_points g.storage now user metric delta in
        let g' : GamifyService S W = record g { storage = storage } in
        elim added [
          | ok total ↦
              let ev = new_points_added now user metric delta total in
              (ok total, run_rules (publish g' ev) now user ev)
          | err e ↦ (err e, g')
        ]

    module _ (case_table : CaseTable) where
      unfoldable pub add_points :
          GamifyService S W → Time → UserId → Metric → ℤ → Result Error ℤ × GamifyService S W
      add_points g now user metric delta =
          ite (ℤ-discrete delta (pos 0)) (err delta_zero, g)
            (elim (normalize_user_id case_table user) [
              | ok normalized ↦ add_points_to g now normalized metric delta
              | err e ↦ (err e, g)
            ])

  -- `AwardBadge` behind the two checks.
  unfoldable pub award_badge_to :
      GamifyService S W → Time → UserId → Badge → Option Error × GamifyService S W
  award_badge_to g now user badge =
      let (failed, storage) = S.award_badge g.storage now user badge in
      let g' : GamifyService S W = record g { storage = storage } in
      elim failed [
        | none ↦ (none, publish g' (new_badge_awarded now user badge))
        | some e ↦ (some e, g')
      ]

  unfoldable pub award_badge :
      CaseTable → GamifyService S W → Time → UserId → Badge → Option Error × GamifyService S W
  award_badge case_table g now user badge = elim (normalize_user_id case_table user) [
    | ok normalized ↦ elim (validate_badge_id badge) [
      | none ↦ award_badge_to g now normalized badge
      | some e ↦ (some e, g)
    ]
    | err e ↦ (some e, g)
  ]
