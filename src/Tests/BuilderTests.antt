-- ===== src/Tests/BuilderTests.antt =====
-- The theorem on gamify.New at a concrete input.
use gamifykit.Prelude.{◌≡◌, refl, List, [], ◌∷◌, some, if◌then◌else◌}
use gamifykit.Engine.Bus.{dispatch_sync_mode}
use gamifykit.Engine.Service.{publish}
use gamifykit.Realtime.Hub.{broadcast}
use gamifykit.Builder.{Builder, with_realtime, with_dispatch_mode, apply_options, configure, new}
use gamifykit.Builder.Bridge.{is_primary, publish-new}
use gamifykit.Tests.Instances.{whole_floats, against_entry_order}
use gamifykit.Tests.HubTests.{one_client, badge_event}

abbrev live : List (Builder → Builder)
live = with_dispatch_mode dispatch_sync_mode ∷ with_realtime one_client ∷ []

publish-new_example :
    (publish (new whole_floats against_entry_order live).2 badge_event).env
    ≡ (if is_primary badge_event.typ then broadcast one_client badge_event else some one_client)
unfolding configure apply_options with_realtime with_dispatch_mode
publish-new_example =
    publish-new whole_floats against_entry_order live one_client badge_event refl refl
