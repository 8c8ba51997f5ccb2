-- ===== src/Dashboard/Tests.antt =====
-- The theorems on the overview at concrete clusters.
use kafka_manager.Base.{◌↔◌, true, false, none, some, List, [], ◌∷◌, codes, Text}
use kafka_manager.Base.Int.{ℤ, pos}
use kafka_manager.Types.{Cluster, Status, DashboardPoint}
use kafka_manager.Markup.{Offered}
use kafka_manager.Navigation.Connection.{DashboardLoadState}
use kafka_manager.Dashboard.Screen.{open_cluster, consumers, page_items}
use kafka_manager.Dashboard.Screen.Opened.{OnlineIn, page_items-offers_iff}

abbrev up : Cluster
up = record {
  id = codes "dev";
  name = codes "Development";
  status = some Status.online;
  is_online = true;
  error = none;
  sampled_at = none;
  latency_ms = 4;
  brokers = 1;
  topics = 2;
  partitions = 6;
  consumer_groups = 3;
  under_replicated = 0;
  total_lag = pos 0;
  lag_available = some true;
  lag_error = none;
  read_only = false;
}

abbrev two_clusters : List Cluster
two_clusters = up ∷ record up { status = none } ∷ []

no_history : Text → List DashboardPoint
no_history id = []

abbrev plain : ℤ → Text
plain n = []

abbrev same : Text → Text
same t = t

page_items-offers_iff_example :
    Offered
      (open_cluster (codes "dev") consumers)
      (page_items plain same DashboardLoadState.error no_history two_clusters)
    ↔ OnlineIn (codes "dev") two_clusters
page_items-offers_iff_example =
    page_items-offers_iff plain same (codes "dev") consumers DashboardLoadState.error no_history
      two_clusters
