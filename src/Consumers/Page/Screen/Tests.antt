-- ===== src/Consumers/Page/Screen/Tests.antt =====
-- The theorem on the escape key at a concrete group.
use kafka_manager.Base.{◌≡◌, none, some, [], codes}
use kafka_manager.Base.Int.{pos}
use kafka_manager.Feedback.{Provider}
use kafka_manager.Consumers.{ConsumerGroup}
use kafka_manager.Consumers.Page
use kafka_manager.Consumers.Page.{ConsumersState, ResetRequest}
use kafka_manager.Consumers.Page.Screen.{Screen, press_escape, confirm}
use kafka_manager.Consumers.Page.Screen.Escape.{ask_reset, reset_sent_again}

abbrev quiet : Provider
quiet = record { items = []; serial = 0 }

abbrev idle_group : ConsumerGroup
idle_group = record {
  name = codes "etl";
  state = codes "Empty";
  protocol = [];
  member_count = 0;
  total_lag = pos 9;
  partitions = [];
}

abbrev listed : Screen
listed = record { page = Page.start; drawer = none }

reset_sent_again_example :
    let (pending, first) = confirm (codes "etl") (ask_reset quiet idle_group 3 listed) in
    let (after, second) =
      confirm (codes "etl") (ask_reset quiet idle_group 4 (press_escape pending)) in
    (first ≡ some (record { mode = codes "latest"; offset = 3 }))
    × (second ≡ some (record { mode = codes "latest"; offset = 4 }))
reset_sent_again_example = reset_sent_again quiet idle_group 3 4 Page.start
