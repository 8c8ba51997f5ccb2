-- ===== src/App/Tests.antt =====
-- The theorems on the application at concrete states.
use mathlib.Core.Option
use kafka_manager.Base.{◌≡◌, refl, true, false, none, some, List, [], ◌∷◌, arith, Text, codes}
use kafka_manager.Base.Int.{pos}
use kafka_manager.Types.{Cluster, Status, Topic}
use kafka_manager.Navigation.Connection.{DashboardLoadState}
use kafka_manager.Navigation.Routes.{AppRoute, topics, consumers, TopicTab}
use kafka_manager.App.{
  AppState, DashboardAnswer, failed, snapshot, load_clusters, clusters_answered, redirect,
  cluster_id, cluster_of,
}
use kafka_manager.App.Content.{content, View, workspace}
use kafka_manager.App.Selection.{
  TopicRequest, listed, topic_effect, topic_answered, select_exact_topic,
}
use kafka_manager.App.Dashboard.{
  refresh, answered, dashboard_run, late_answer_ignored, latest_answer_shown,
}
use kafka_manager.App.Topics.{return_stuck}
use kafka_manager.App.Loading.{load_shows}
use kafka_manager.App.Routing.{redirect_settles}

abbrev topic : Text → Topic
topic name = record {
  name = name;
  is_internal = false;
  partition_count = 3;
  replication_factor = 1;
  under_replicated = 0;
  partitions = [];
}

abbrev dev : Cluster
dev = record {
  id = codes "dev";
  name = codes "Development";
  status = some Status.online;
  is_online = true;
  error = none;
  sampled_at = some 1700;
  latency_ms = 4;
  brokers = 1;
  topics = 2;
  partitions = 6;
  consumer_groups = 0;
  under_replicated = 0;
  total_lag = pos 0;
  lag_available = some true;
  lag_error = none;
  read_only = false;
}

-- The topic "orders" is selected; "audit" was asked for, and the reader is back at "orders".
abbrev scene : AppState
scene = record {
  authenticated = some true;
  address = codes "/clusters/dev/topics/orders/overview";
  route = record {
    page = topics;
    cluster_id = some (codes "dev");
    topic_name = some (codes "orders");
    topic_tab = some TopicTab.messages;
  };
  clusters = dev ∷ [];
  history = [];
  dashboard_state = DashboardLoadState.ready;
  dashboard_requests = record { current = 4 };
  selected_topic = some (record { cluster_id = codes "dev"; item = topic (codes "orders") });
  topic_loading = true;
  topic_error = [];
  menu_open = false;
  sidebar_collapsed = false;
  generation = 2;
}

abbrev audit_request : TopicRequest
audit_request = record { generation = 2; id = codes "dev"; name = codes "audit" }

return_stuck_example :
    let (t, request) = topic_effect scene in
    (request ≡ none)
    × (content (topic_answered audit_request (listed (topic (codes "audit") ∷ [])) t)
        ≡ View.loading)
unfolding cluster_id cluster_of
return_stuck_example =
    return_stuck scene (codes "dev") (codes "orders")
      (record { ready = refl; cluster = refl; has_cluster = refl; topic = refl; has_topic = refl })
      refl refl audit_request (listed (topic (codes "audit") ∷ [])) (omega arith)

abbrev first_answer : DashboardAnswer
first_answer = snapshot [] none

late_answer_ignored_example :
    let (first, request) = load_clusters scene in
    let later =
      dashboard_run
        (load_clusters (dashboard_run first (answered 3 failed ∷ []))).0
        (answered 6 failed ∷ refresh ∷ []) in
    clusters_answered request first_answer later ≡ later
late_answer_ignored_example =
    late_answer_ignored scene (answered 3 failed ∷ []) (answered 6 failed ∷ refresh ∷ [])
      first_answer

latest_answer_shown_example :
    let (started, request) = load_clusters scene in
    let t =
      clusters_answered request
        (snapshot (dev ∷ dev ∷ []) (some []))
        (dashboard_run started (answered 4 failed ∷ answered 3 first_answer ∷ [])) in
    (t.clusters ≡ dev ∷ dev ∷ [])
    × (t.history ≡ [])
    × (t.dashboard_state ≡ DashboardLoadState.ready)
latest_answer_shown_example =
    latest_answer_shown scene (answered 4 failed ∷ answered 3 first_answer ∷ []) (dev ∷ dev ∷ []) []
      (tt, (tt, tt))

abbrev three_topics : List Topic
three_topics = topic (codes "orders.v1") ∷ topic (codes "orders") ∷ topic (codes "orders") ∷ []

-- An address that names a cluster that is gone.
abbrev gone : AppState
gone = record scene {
  route = record {
    page = consumers;
    cluster_id = some (codes "old");
    topic_name = none;
    topic_tab = none;
  };
}

redirect_settles_example : redirect (redirect gone) ≡ redirect gone
redirect_settles_example = redirect_settles gone

abbrev payments : AppRoute
payments = record {
  page = topics;
  cluster_id = some (codes "dev");
  topic_name = some (codes "pay/ments");
  topic_tab = none;
}

abbrev elsewhere : AppState
elsewhere = record scene { selected_topic = none }

load_shows_example :
    (r : TopicRequest) × ((topic_effect elsewhere).1 ≡ some r)
    × (content (topic_answered r (listed three_topics) (topic_effect elsewhere).0)
        ≡ workspace (topic (codes "orders")) TopicTab.messages)
    × ((topic_effect (topic_answered r (listed three_topics) (topic_effect elsewhere).0)).1 ≡ none)
unfolding cluster_id cluster_of select_exact_topic
load_shows_example =
    load_shows elsewhere (codes "dev") (codes "orders")
      (record { ready = refl; cluster = refl; has_cluster = refl; topic = refl; has_topic = refl })
      refl three_topics refl
