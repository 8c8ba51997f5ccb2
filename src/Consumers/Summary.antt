-- ===== src/Consumers/Summary.antt =====
-- The totals of the summary.
use kafka_manager.Base.{
  Bool, ◌+◌, ◌≡◌, refl, List, [], ◌∷◌, ◌++◌, arith, length, filter, length-append, ◌∙◌,
}
use kafka_manager.Base.Int.{ℤ, pos, ◌+ℤ◌, is_positive, +ℤ_assoc, +ℤ_zero, zero_+ℤ}
use kafka_manager.Consumers.{
  PartitionLag, ConsumerGroup, GroupSummary, is_lagging, add_group, summarize_from,
  summarize_consumer_groups,
}

abbrev pub lagging : List ConsumerGroup → List ConsumerGroup
lagging = filter (λ g. is_positive g.total_lag)

abbrev pub sum_lag : List ConsumerGroup → ℤ
sum_lag [] = pos 0
sum_lag (g ∷ gs) = g.total_lag +ℤ sum_lag gs

abbrev pub all_partitions : List ConsumerGroup → List PartitionLag
all_partitions [] = []
all_partitions (g ∷ gs) = g.partitions ++ all_partitions gs

filter-append {ℓ} :
    {A : Type ℓ} (p : A → Bool) (xs ys : List A) → filter p (xs ++ ys) ≡ filter p xs ++ filter p ys
filter-append p [] ys = refl
filter-append p (x ∷ xs) ys = ground (arith, filter-append p xs ys)

-- The summary counted in four independent ways, on top of what the loop started from.
abbrev totals : GroupSummary → List ConsumerGroup → GroupSummary
totals s gs = record {
  groups = s.groups + length gs;
  lagging_groups = s.lagging_groups + length (lagging gs);
  total_lag = s.total_lag +ℤ sum_lag gs;
  lagging_partitions = s.lagging_partitions + length (filter is_lagging (all_partitions gs));
}

totals_step :
    (s : GroupSummary) (g : ConsumerGroup) (gs : List ConsumerGroup)
    → totals (add_group s g) gs ≡ totals s (g ∷ gs)
unfolding add_group
totals_step s g gs = ground (
  arith,
  +ℤ_assoc s.total_lag g.total_lag (sum_lag gs),
  filter-append is_lagging g.partitions (all_partitions gs),
  length-append (filter is_lagging g.partitions) (filter is_lagging (all_partitions gs)),
)

summarize_from-totals :
    (s : GroupSummary) (gs : List ConsumerGroup) → summarize_from s gs ≡ totals s gs
unfolding summarize_from
summarize_from-totals s [] = ground (arith, +ℤ_zero s.total_lag)
summarize_from-totals s (g ∷ gs) = summarize_from-totals (add_group s g) gs ∙ totals_step s g gs

-- The summary of the groups counts the groups, those with a positive total lag and the partitions
-- with a positive lag of all groups together, and adds up the total lags.
summarize_totals :
    (gs : List ConsumerGroup)
    → summarize_consumer_groups gs ≡ record {
      groups = length gs;
      lagging_groups = length (lagging gs);
      total_lag = sum_lag gs;
      lagging_partitions = length (filter is_lagging (all_partitions gs));
    }
unfolding summarize_consumer_groups
summarize_totals gs = summarize_from-totals _ gs ∙ ground (arith, zero_+ℤ (sum_lag gs))
