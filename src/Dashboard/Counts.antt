-- ===== src/Dashboard/Counts.antt =====
-- That the overview counts every cluster once.
use kafka_manager.Base.{ℕ, ◌+◌, ◌≤◌, ◌≡◌, refl, ◌∙◌, List, [], ◌∷◌, arith, length}
use kafka_manager.Base.Int.{ℤ, pos, ◌+ℤ◌, +ℤ_assoc, zero_+ℤ, +ℤ_zero}
use kafka_manager.Types.{Cluster, Status}
use kafka_manager.Dashboard.{
  Totals, add_cluster, totals_from, totals, count_status, lag_unavailable,
}

-- Every cluster is counted as offline, as loading or as online, and as one of these only; the lag
-- is reported as unavailable for online clusters only.
pub count_status-partition :
    (cs : List Cluster)
    → (count_status Status.offline cs
          + count_status Status.loading cs
          + count_status Status.online cs
        ≡ length cs)
      × (lag_unavailable cs ≤ count_status Status.online cs)
unfolding count_status lag_unavailable
count_status-partition [] = (refl, omega arith)
count_status-partition (c ∷ cs) = ground (arith, count_status-partition cs)

abbrev pub sum_of : (Cluster → ℕ) → List Cluster → ℕ
sum_of f [] = 0
sum_of f (c ∷ cs) = f c + sum_of f cs

abbrev pub sum_lag : List Cluster → ℤ
sum_lag [] = pos 0
sum_lag (c ∷ cs) = c.total_lag +ℤ sum_lag cs

plus_sums : Totals → List Cluster → Totals
plus_sums t cs = record {
  brokers = t.brokers + sum_of (λ c. c.brokers) cs;
  topics = t.topics + sum_of (λ c. c.topics) cs;
  partitions = t.partitions + sum_of (λ c. c.partitions) cs;
  groups = t.groups + sum_of (λ c. c.consumer_groups) cs;
  lag = t.lag +ℤ sum_lag cs;
  isr = t.isr + sum_of (λ c. c.under_replicated) cs;
}

plus_sums-step :
    (t : Totals) (c : Cluster) (cs : List Cluster)
    → plus_sums (add_cluster t c) cs ≡ plus_sums t (c ∷ cs)
unfolding plus_sums add_cluster
plus_sums-step t c cs = ground (arith, +ℤ_assoc t.lag c.total_lag (sum_lag cs))

totals_from-sums : (t : Totals) (cs : List Cluster) → totals_from t cs ≡ plus_sums t cs
unfolding totals_from plus_sums
totals_from-sums t [] = ground (arith, +ℤ_zero t.lag)
totals_from-sums t (c ∷ cs) = totals_from-sums (add_cluster t c) cs ∙ plus_sums-step t c cs

-- The totals of the overview are the sums over the clusters, each of its own field.
pub totals-sums :
    (cs : List Cluster)
    → totals cs ≡ record {
      brokers = sum_of (λ c. c.brokers) cs;
      topics = sum_of (λ c. c.topics) cs;
      partitions = sum_of (λ c. c.partitions) cs;
      groups = sum_of (λ c. c.consumer_groups) cs;
      lag = sum_lag cs;
      isr = sum_of (λ c. c.under_replicated) cs;
    }
unfolding totals plus_sums
totals-sums cs = totals_from-sums _ cs ∙ ground (arith, zero_+ℤ (sum_lag cs))
