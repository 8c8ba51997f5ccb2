-- ===== src/Consumers/Page/Display/Tests.antt =====
-- The drawer of a group, with the dialog open over it.
use kafka_manager.Base.{◌≡◌, ◌↔◌, false, true, some, [], Text, codes}
use kafka_manager.Base.Int.{ℤ, pos}
use kafka_manager.Markup.{Offered}
use kafka_manager.Consumers.{PartitionLag, ConsumerGroup}
use kafka_manager.Consumers.Page.{DrawerState, is_open}
use kafka_manager.Consumers.Page.Display.{ask_reset, confirm_reset, drawer_items}
use kafka_manager.Consumers.Page.Display.Resetting.{drawer_items-offers_iff}

abbrev number : ℤ → Text
number n = codes "0"

abbrev bar : PartitionLag → Text
bar p = codes "100.0"

abbrev equal : Text → Text → ℤ
equal s t = pos 0

abbrev same : Text → Text
same t = t

abbrev billing : ConsumerGroup
billing = record {
  name = codes "billing";
  state = codes "Stable";
  protocol = codes "range";
  member_count = 2;
  total_lag = pos 0;
  partitions = [];
}

abbrev asked : DrawerState
asked = record {
  error = [];
  mode = codes "latest";
  resetting = false;
  reset_request = some (record { mode = codes "latest"; offset = 0 });
  typed = codes "billing";
  feedback = record { items = []; serial = 0 };
}

drawer_items-offers_iff_example :
    (Offered ask_reset
        (drawer_items number bar equal same (codes "dev") false billing [] false [] asked)
      ↔ ((asked.resetting ≡ false) × (false ≡ false)))
    × (Offered confirm_reset
          (drawer_items number bar equal same (codes "dev") false billing [] false [] asked)
        ↔ ((is_open asked.reset_request ≡ true)
            × (asked.typed ≡ billing.name)
            × (asked.resetting ≡ false)))
drawer_items-offers_iff_example =
    drawer_items-offers_iff number bar equal same (codes "dev") false billing [] false [] asked
