-- ===== src/Consumers.antt =====
-- web/src/pages/consumers-model.ts: the model behind the page of consumer groups.
-- Lags and offsets are integers, for the back end sends -1 where an offset is unknown. The host's
-- `localeCompare` and `toLowerCase` depend on its locale data, and are parameters.
pub mod Summary
pub mod Order
pub mod Partitions
pub mod Page
mod Tests
use mathlib.Core.Path.{◌≡◌}
use kafka_manager.Base.{
  ℕ, ◌+◌, Bool, not, ◌&&◌, ◌||◌, Option, none, some, List, [], ◌∷◌, ◌++◌, ◌==◌, if◌then◌else◌, Text,
  codes, is_empty, filter, length, any,
}
use kafka_manager.Base.Int.{ℤ, pos, ◌+ℤ◌, ◌-ℤ◌, is_positive, or_number}
use kafka_manager.Base.Sort.{sort}
use kafka_manager.Base.Decimal.{decimal}
use kafka_manager.Base.Search.{trim, includes}

pub record PartitionLag : Type 0 where
  pub topic : Text
  pub partition : ℕ
  pub current_offset : ℤ
  pub end_offset : ℤ
  pub lag : ℤ

pub record ConsumerGroup : Type 0 where
  pub name : Text
  pub state : Text
  pub protocol : Text
  pub member_count : ℕ
  pub total_lag : ℤ
  pub partitions : List PartitionLag

pub data ConsumerSort : Type 0 where
  lag_desc name_asc members_desc : ConsumerSort

pub record GroupSummary : Type 0 where
  pub groups : ℕ
  pub lagging_groups : ℕ
  pub total_lag : ℤ
  pub lagging_partitions : ℕ

abbrev pub is_lagging : PartitionLag → Bool
is_lagging p = is_positive p.lag

-- One step of the `reduce`.
pub add_group : GroupSummary → ConsumerGroup → GroupSummary
add_group summary group = record {
  groups = summary.groups + 1;
  lagging_groups = summary.lagging_groups + (if is_positive group.total_lag then 1 else 0);
  total_lag = summary.total_lag +ℤ group.total_lag;
  lagging_partitions = summary.lagging_partitions + length (filter is_lagging group.partitions);
}

pub summarize_from : GroupSummary → List ConsumerGroup → GroupSummary
summarize_from summary [] = summary
summarize_from summary (g ∷ gs) = summarize_from (add_group summary g) gs

pub summarize_consumer_groups : List ConsumerGroup → GroupSummary
summarize_consumer_groups =
    summarize_from
      (record { groups = 0; lagging_groups = 0; total_lag = pos 0; lagging_partitions = 0 })

-- The text of a partition that a search looks through.
pub partition_label : (Text → Text) → PartitionLag → Text
partition_label to_lower_case p = to_lower_case (p.topic ++ (codes " / p" ++ decimal p.partition))

module _ (locale_compare : Text → Text → ℤ) where
  pub compare_groups : ConsumerSort → ConsumerGroup → ConsumerGroup → ℤ
  compare_groups name_asc left right = locale_compare left.name right.name
  compare_groups members_desc left right =
      or_number (pos right.member_count -ℤ pos left.member_count)
        (right.total_lag -ℤ left.total_lag)
  compare_groups lag_desc left right =
      or_number (right.total_lag -ℤ left.total_lag) (locale_compare left.name right.name)

  pub sort_consumer_groups : List ConsumerGroup → ConsumerSort → List ConsumerGroup
  sort_consumer_groups groups order = sort (compare_groups order) groups

  pub compare_partitions : PartitionLag → PartitionLag → ℤ
  compare_partitions left right = or_number (right.lag -ℤ left.lag) (
      or_number (locale_compare left.topic right.topic) (pos left.partition -ℤ pos right.partition))

  module _ (to_lower_case : Text → Text) where
    pub filter_partitions : List PartitionLag → Text → Bool → List PartitionLag
    filter_partitions partitions query lag_only =
        let term = to_lower_case (trim query) in
        sort compare_partitions (
          filter (λ p. is_empty term || includes (partition_label to_lower_case p) term)
            (filter (λ p. not lag_only || is_lagging p) partitions))
