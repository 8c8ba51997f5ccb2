-- ===== src/Consumers/Tests.antt =====
-- The theorems on consumer groups at concrete groups.
use mathlib.Core.List.{Perm}
use kafka_manager.Base.{ℕ, true, List, [], ◌∷◌, Text, codes, length, filter}
use kafka_manager.Base.Int.{ℤ, pos, negsuc, ◌-ℤ◌}
use kafka_manager.Base.Sort.{OrderedBy, IsConsistent}
use kafka_manager.Base.Comparator.{ascending-IsConsistent}
use kafka_manager.Consumers.{
  PartitionLag, ConsumerGroup, sort_consumer_groups, members_desc, filter_partitions,
}
use kafka_manager.Consumers.Order.{MayPrecede, sort_consumer_groups-ordered}
use kafka_manager.Consumers.Partitions.{is_wanted, ShownBefore, filter_partitions-ordered}

-- Shorter texts first.
abbrev by_length : Text → Text → ℤ
by_length a b = pos (length a) -ℤ pos (length b)

by_length-IsConsistent : IsConsistent by_length
by_length-IsConsistent = ascending-IsConsistent (λ t. pos (length t))

abbrev same : Text → Text
same t = t

abbrev partition : ℕ → ℤ → PartitionLag
partition n lag = record {
  topic = codes "orders";
  partition = n;
  current_offset = pos 4;
  end_offset = pos 9;
  lag = lag;
}

abbrev group : Text → ℕ → ℤ → ConsumerGroup
group name members lag = record {
  name = name;
  state = codes "Stable";
  protocol = [];
  member_count = members;
  total_lag = lag;
  partitions = partition 0 lag ∷ partition 1 (pos 0) ∷ [];
}

abbrev groups : List ConsumerGroup
groups =
    group (codes "pay") 2 (pos 0)
    ∷ group (codes "mailer") 2 (pos 7)
    ∷ group (codes "bi") 1 (pos 3)
    ∷ group (codes "etl") 0 (pos 9)
    ∷ []

sort_consumer_groups-ordered_example :
    Perm (sort_consumer_groups by_length groups members_desc) groups
    × OrderedBy
        (MayPrecede by_length members_desc)
        (sort_consumer_groups by_length groups members_desc)
sort_consumer_groups-ordered_example =
    sort_consumer_groups-ordered by_length by_length-IsConsistent groups members_desc

abbrev partitions : List PartitionLag
partitions = partition 2 (pos 0) ∷ partition 1 (pos 5) ∷ partition 0 (negsuc 0) ∷ []

filter_partitions-ordered_example :
    let shown = filter_partitions by_length same partitions (codes " p1") true in
    Perm shown (filter (is_wanted same (codes " p1") true) partitions)
    × OrderedBy (ShownBefore by_length) shown
filter_partitions-ordered_example =
    filter_partitions-ordered by_length same by_length-IsConsistent partitions (codes " p1") true
