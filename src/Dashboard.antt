-- ===== src/Dashboard.antt =====
-- web/src/pages/DashboardPage.tsx: the totals of the overview. The status of a cluster, with the
-- fallback of an older server, is `cluster_status` of Navigation.Connection.
pub mod Counts
pub mod Alerts
pub mod Screen
mod Tests
use kafka_manager.Base.{
  ℕ, ◌+◌, Bool, true, false, not, ◌&&◌, Option, none, some, List, [], ◌∷◌, length, filter,
}
use kafka_manager.Base.Int.{ℤ, pos, ◌+ℤ◌}
use kafka_manager.Types.{Cluster, Status}
use kafka_manager.Navigation.Connection.{cluster_status}

pub record Totals : Type 0 where
  pub brokers : ℕ
  pub topics : ℕ
  pub partitions : ℕ
  pub groups : ℕ
  pub lag : ℤ
  pub isr : ℕ

-- One step of the `reduce`.
pub add_cluster : Totals → Cluster → Totals
add_cluster current c = record {
  brokers = current.brokers + c.brokers;
  topics = current.topics + c.topics;
  partitions = current.partitions + c.partitions;
  groups = current.groups + c.consumer_groups;
  lag = current.lag +ℤ c.total_lag;
  isr = current.isr + c.under_replicated;
}

pub totals_from : Totals → List Cluster → Totals
totals_from current [] = current
totals_from current (c ∷ cs) = totals_from (add_cluster current c) cs

pub totals : List Cluster → Totals
totals =
    totals_from
      (record { brokers = 0; topics = 0; partitions = 0; groups = 0; lag = pos 0; isr = 0 })

abbrev pub has_status : Status → Status → Bool
has_status Status.loading Status.loading = true
has_status Status.online Status.online = true
has_status Status.offline Status.offline = true
has_status s t = false

pub count_status : Status → List Cluster → ℕ
count_status s cs = length (filter (λ c. has_status (cluster_status c) s) cs)

abbrev pub lag_missing : Cluster → Bool
lag_missing c = elim c.lag_available [ some b ↦ not b | none ↦ false ]

pub lag_unavailable : List Cluster → ℕ
lag_unavailable cs =
    length (filter (λ c. has_status (cluster_status c) Status.online && lag_missing c) cs)
