-- ===== src/Consumers/Order.antt =====
-- In which order the groups are shown.
use mathlib.Core.List.{Perm}
use kafka_manager.Base.{◌<◌, ◌≡◌, ◌⊎◌, inl, inr, false, List, Bool, arith, filter, Text}
use kafka_manager.Base.Int.{ℤ, pos, ◌-ℤ◌, ◌<ℤ◌, ◌≤ℤ◌, is_positive}
use kafka_manager.Base.Sort.{
  IsConsistent, OrderedBy, OrderedBy-map, IsLevel, sort-IsSorted, sort-perm, filter-sort,
}
use kafka_manager.Base.Comparator.{
  or_number-IsConsistent, descending-IsConsistent, on-IsConsistent, sub_meaning, sub_or_meaning,
}
use kafka_manager.Consumers.{
  ConsumerGroup, ConsumerSort, lag_desc, name_asc, members_desc, compare_groups,
  sort_consumer_groups,
}

module _ (locale_compare : Text → Text → ℤ) where
  -- Which of two groups may come first, for each choice of the reader.
  abbrev pub MayPrecede : ConsumerSort → ConsumerGroup → ConsumerGroup → Type 0
  MayPrecede name_asc a b = is_positive (locale_compare a.name b.name) ≡ false
  MayPrecede members_desc a b =
      (b.member_count < a.member_count)
      ⊎ ((a.member_count ≡ b.member_count) × (b.total_lag ≤ℤ a.total_lag))
  MayPrecede lag_desc a b =
      (b.total_lag <ℤ a.total_lag)
      ⊎ ((b.total_lag ≡ a.total_lag) × (is_positive (locale_compare a.name b.name) ≡ false))

  compare_groups_meaning :
      (order : ConsumerSort) (a b : ConsumerGroup)
      → is_positive (compare_groups locale_compare order a b) ≡ false
      → MayPrecede order a b
  unfolding compare_groups
  compare_groups_meaning name_asc a b h = h
  compare_groups_meaning members_desc a b h =
      elim (sub_or_meaning (pos b.member_count) (pos a.member_count) (b.total_lag -ℤ a.total_lag)
        h) [
          | inl fewer ↦ inl (omega arith)
          | inr (same, rest) ↦ inr (ground arith, sub_meaning b.total_lag a.total_lag rest)
        ]
  compare_groups_meaning lag_desc a b h = sub_or_meaning b.total_lag a.total_lag _ h

  compare_groups-IsConsistent :
      IsConsistent locale_compare
      → (order : ConsumerSort) → IsConsistent (compare_groups locale_compare order)
  unfolding compare_groups
  compare_groups-IsConsistent c name_asc = on-IsConsistent locale_compare (λ g. g.name) c
  compare_groups-IsConsistent c members_desc =
      or_number-IsConsistent _ _ (descending-IsConsistent (λ g. pos g.member_count))
        (descending-IsConsistent (λ g. g.total_lag))
  compare_groups-IsConsistent c lag_desc =
      or_number-IsConsistent _ _ (descending-IsConsistent (λ g. g.total_lag))
        (on-IsConsistent locale_compare (λ g. g.name) c)

  -- With a consistent `localeCompare` the groups are shown each as often as it was sent, in the
  -- order that the reader chose.
  pub sort_consumer_groups-ordered :
      IsConsistent locale_compare
      → (groups : List ConsumerGroup) (order : ConsumerSort)
      → Perm (sort_consumer_groups locale_compare groups order) groups
        × OrderedBy (MayPrecede order) (sort_consumer_groups locale_compare groups order)
  unfolding sort_consumer_groups
  sort_consumer_groups-ordered c groups order =
      let cmp : ConsumerGroup → ConsumerGroup → ℤ = compare_groups locale_compare order in
      (
        sort-perm cmp groups,
        OrderedBy-map (λ a b. is_positive (cmp a b) ≡ false) (MayPrecede order)
            (compare_groups_meaning order) _
            (sort-IsSorted cmp (compare_groups-IsConsistent c order) groups),
      )

  -- Groups that the order does not tell apart stay in the order in which they were sent, whatever
  -- `localeCompare` is.
  pub sort_consumer_groups_stable :
      (groups : List ConsumerGroup) (order : ConsumerSort) (among : ConsumerGroup → Bool)
      → IsLevel (compare_groups locale_compare order) among
      → filter among (sort_consumer_groups locale_compare groups order) ≡ filter among groups
  unfolding sort_consumer_groups
  sort_consumer_groups_stable groups order among level =
      filter-sort (compare_groups locale_compare order) among groups level
