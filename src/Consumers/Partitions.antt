-- ===== src/Consumers/Partitions.antt =====
-- Which partitions of a group are shown, and in which order.
use mathlib.Core.List.{Perm}
use kafka_manager.Base.{
  ◌≤◌, ◌≡◌, refl, ◌⊎◌, ◌↔◌, inl, inr, true, false, not, ◌&&◌, ◌||◌, List, [], ◌∷◌, Bool, arith,
  filter, Text, is_empty,
}
use kafka_manager.Base.Int.{ℤ, pos, ◌<ℤ◌, is_positive, is_negative}
use kafka_manager.Base.Sort.{IsConsistent, OrderedBy, OrderedBy-map, sort-IsSorted, sort-perm}
use kafka_manager.Base.Comparator.{
  or_number-IsConsistent, descending-IsConsistent, ascending-IsConsistent, on-IsConsistent,
  or_number_meaning, sub_meaning, sub_or_meaning,
}
use kafka_manager.Base.Search.{trim, includes, includes_iff, Occurs}
use kafka_manager.Consumers.{
  PartitionLag, is_lagging, compare_partitions, partition_label, filter_partitions,
}

filter-filter {ℓ} :
    {A : Type ℓ} (p q : A → Bool) (xs : List A)
    → filter p (filter q xs) ≡ filter (λ x. q x && p x) xs
filter-filter p q [] = refl
filter-filter p q (x ∷ xs) = ground (arith, filter-filter p q xs)

-- What a reader asks for: by the term, which may be empty, and by the box "only lagging".
abbrev pub is_wanted : (Text → Text) → Text → Bool → PartitionLag → Bool
is_wanted to_lower_case query lag_only p =
    let term = to_lower_case (trim query) in
    (not lag_only || is_lagging p)
    && (is_empty term || includes (partition_label to_lower_case p) term)

-- A search term that is not empty keeps exactly the partitions whose label it occurs in, if
-- those without a lag are not left out.
pub is_wanted_iff :
    (to_lower_case : Text → Text) (query : Text) (p : PartitionLag)
    → is_empty (to_lower_case (trim query)) ≡ false
    → (is_wanted to_lower_case query false p ≡ true)
      ↔ Occurs (to_lower_case (trim query)) (partition_label to_lower_case p)
is_wanted_iff to_lower_case query p filled = rw filled (includes_iff _ _)

module _ (locale_compare : Text → Text → ℤ) where
  -- The worst lag first, then by topic, then by number.
  abbrev pub ShownBefore : PartitionLag → PartitionLag → Type 0
  ShownBefore a b =
      (b.lag <ℤ a.lag)
      ⊎ ((b.lag ≡ a.lag)
          × (is_positive (locale_compare a.topic b.topic) ≡ false)
          × (((is_negative (locale_compare a.topic b.topic)) ≡ true) ⊎ (a.partition ≤ b.partition)))

  compare_partitions_meaning :
      (a b : PartitionLag)
      → is_positive (compare_partitions locale_compare a b) ≡ false
      → ShownBefore a b
  unfolding compare_partitions
  compare_partitions_meaning a b h = elim (sub_or_meaning b.lag a.lag _ h) [
    | inl worse ↦ inl worse
    | inr (same, rest) ↦ elim (or_number_meaning (locale_compare a.topic b.topic) _ rest) [
      | inl before ↦ inr (same, ground arith, inl before)
      | inr (equal, later) ↦ inr (
        same,
        ground arith,
        inr (omega (arith, sub_meaning (pos a.partition) (pos b.partition) later)),
      )
    ]
  ]

  compare_partitions-IsConsistent :
      IsConsistent locale_compare → IsConsistent (compare_partitions locale_compare)
  unfolding compare_partitions
  compare_partitions-IsConsistent c =
      or_number-IsConsistent _ _ (descending-IsConsistent (λ p. p.lag)) (
        or_number-IsConsistent _ _ (on-IsConsistent locale_compare (λ p. p.topic) c)
          (ascending-IsConsistent (λ p. pos p.partition)))

  module _ (to_lower_case : Text → Text) where
    -- With a consistent `localeCompare` the partitions that the reader wants are shown, each as
    -- often as it was sent, the worst lag first, and of equal lags by topic and number.
    pub filter_partitions-ordered :
        IsConsistent locale_compare
        → (partitions : List PartitionLag) (query : Text) (lag_only : Bool)
        → let shown = filter_partitions locale_compare to_lower_case partitions query lag_only in
          Perm shown (filter (is_wanted to_lower_case query lag_only) partitions)
          × OrderedBy ShownBefore shown
    unfolding filter_partitions
    filter_partitions-ordered c partitions query lag_only =
        let term : Text = to_lower_case (trim query) in
        let cmp : PartitionLag → PartitionLag → ℤ = compare_partitions locale_compare in
        (
          rw
              (← filter-filter
                (λ p. is_empty term || includes (partition_label to_lower_case p) term)
                (λ p. not lag_only || is_lagging p) partitions)
              (sort-perm cmp _),
          OrderedBy-map (λ a b. is_positive (cmp a b) ≡ false) ShownBefore
              compare_partitions_meaning _
              (sort-IsSorted cmp (compare_partitions-IsConsistent c) _),
        )
