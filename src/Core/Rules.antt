-- ===== src/Core/Rules.antt =====
-- core/rules.go, and the rule engine of engine/service.go that runs a list of rules.
use gamifykit.Prelude.{if◌then◌else◌, List, [], ◌∷◌, ◌++◌, ite}
use gamifykit.Prelude.Int.{pos, ltb_ℤ}
use gamifykit.Prelude.GoMap.{get_or}
use gamifykit.Prelude.Text.{text_key, Text-discrete}
use gamifykit.Core.Types.{UserState, Metric, Time, metric_xp}
use gamifykit.Core.Events.{Event, EventType-discrete, points_added, new_level_up}
use gamifykit.Core.Level.{Floats, default_level}

-- The interface `Rule`, and `RuleEngine` of engine/interfaces.go, which has the same method.
-- The first argument is the reading of the clock.
abbrev pub Rule : Type 0
Rule = Time → UserState → Event → List Event

-- The loop of `simpleRuleEngine.Evaluate`.
unfoldable pub evaluate_rules : List Rule → Rule
evaluate_rules [] now state trigger = []
evaluate_rules (r ∷ rules) now state trigger =
    r now state trigger ++ evaluate_rules rules now state trigger

module _ (floats : Floats) where
  -- `LevelUpRule{Metric: metric}.Evaluate`
  unfoldable pub level_up_rule : Metric → Rule
  level_up_rule metric now state trigger =
      ite (EventType-discrete trigger.typ points_added)
        (ite (Text-discrete trigger.metric metric)
          (let new_level = default_level floats (get_or state.points metric (pos 0)) in
            if ltb_ℤ (get_or state.levels metric (pos 0)) new_level
            then new_level_up now state.user_id metric new_level ∷ []
            else [])
          [])
        []

  -- `DefaultRuleEngine`
  unfoldable pub default_rule_engine : Rule
  unfolding evaluate_rules
  default_rule_engine = evaluate_rules (level_up_rule metric_xp ∷ [])
