-- ===== src/App.antt =====
-- web/src/App.tsx: the state of the application, its handlers and its effects.
-- A handler returns the new state. An `await` splits a handler in two: what it does before, and
-- what it does with the answer. `address` is the path in the browser's address bar; the browser's
-- history, which `navigate` adds to or replaces the last entry of, is the host's.
pub mod Selection
pub mod Content
pub mod Dashboard
pub mod Topics
pub mod Loading
pub mod Routing
pub mod Shell
mod Tests
use kafka_manager.Base.{
  ℕ, suc, ◌+◌, Bool, true, false, not, ◌&&◌, ◌||◌, Option, none, some, List, [], ◌∷◌, ◌++◌, ◌==◌,
  if◌then◌else◌, Text, codes, is_empty, text_eq, any, find,
}
use kafka_manager.Types.{Cluster, Topic, DashboardPoint}
use kafka_manager.Navigation.Routes.Dots.{resolve_path}
use kafka_manager.Navigation.Routes.{
  Page, topics, TopicTab, overview, AppRoute, parse_route_path, build_route_path,
}
use kafka_manager.Navigation.Connection.{DashboardLoadState}
use kafka_manager.Navigation.Requests.{RequestSequence, new, begin, is_current}

abbrev pub History : Type 0
History = List (Text × List DashboardPoint)

pub record SelectedTopic : Type 0 where
  pub cluster_id : Text
  pub item : Topic

-- `generation` counts the runs of the effect that loads a topic: its clean-up clears the flag
-- `active` of the run before, so an answer counts if it belongs to the latest run.
pub record AppState : Type 0 where
  pub authenticated : Option Bool
  pub address : Text
  pub route : AppRoute
  pub clusters : List Cluster
  pub history : History
  pub dashboard_state : DashboardLoadState
  pub dashboard_requests : RequestSequence
  pub selected_topic : Option SelectedTopic
  pub topic_loading : Bool
  pub topic_error : Text
  pub menu_open : Bool
  pub sidebar_collapsed : Bool
  pub generation : ℕ

-- The state of a page that is opened at an address. `new RequestSequence()` starts at 0.
pub start : Text → Bool → AppState
start pathname collapsed =
    let route : AppRoute = parse_route_path pathname in
    record {
      authenticated = none;
      address = pathname;
      route = route;
      clusters = [];
      history = [];
      dashboard_state = DashboardLoadState.idle;
      dashboard_requests = new;
      selected_topic = none;
      topic_loading = not (is_empty (elim route.topic_name [ none ↦ [] | some name ↦ name ]));
      topic_error = [];
      menu_open = false;
      sidebar_collapsed = collapsed;
      generation = 0;
    }

-- The answer to the request for the dashboard; `failed` is any exception.
pub data DashboardAnswer : Type 0 where
  failed : DashboardAnswer
  snapshot : List Cluster → Option History → DashboardAnswer

abbrev leave_idle : DashboardLoadState → DashboardLoadState
leave_idle DashboardLoadState.idle = DashboardLoadState.loading
leave_idle state = state

-- `loadClusters` up to its `await`, with the number of the request.
pub load_clusters : AppState → AppState × ℕ
load_clusters s =
    let (requests, request) = begin s.dashboard_requests in
    (
      record s { dashboard_requests = requests; dashboard_state = leave_idle s.dashboard_state },
      request,
    )

abbrev or_no_history : Option History → History
or_no_history none = []
or_no_history (some h) = h

abbrev show_answer : DashboardAnswer → AppState → AppState
show_answer failed s = record s { dashboard_state = DashboardLoadState.error }
show_answer (snapshot items points) s = record s {
  clusters = items;
  history = or_no_history points;
  dashboard_state = DashboardLoadState.ready;
}

-- `loadClusters` after its `await`.
pub clusters_answered : ℕ → DashboardAnswer → AppState → AppState
clusters_answered request answer s =
    if is_current s.dashboard_requests request then show_answer answer s else s

abbrev pub has_id : Text → Cluster → Bool
has_id id c = text_eq c.id id

abbrev or_text : Text → Text → Text
or_text a b = if is_empty a then b else a

abbrev pub or_empty : Option Text → Text
or_empty none = []
or_empty (some t) = t

abbrev first_id : List Cluster → Text
first_id [] = []
first_id (c ∷ cs) = c.id

-- The cluster of the address if there is such a cluster, else the first one, else whatever the
-- address says.
pub cluster_of : List Cluster → Text → Text
cluster_of clusters wanted =
    if not (is_empty wanted) && any (has_id wanted) clusters
    then wanted
    else or_text (first_id clusters) wanted

-- `clusterId`
pub cluster_id : AppState → Text
cluster_id s = cluster_of s.clusters (or_empty s.route.cluster_id)

-- `navigate`. The address is built first, so an exception there changes nothing; what the browser
-- pushes is the path without its dot segments.
pub navigate : AppRoute → AppState → AppState
navigate next s = elim (build_route_path next) [
  | none ↦ s
  | some path ↦ record s { address = resolve_path path; route = next; menu_open = false }
]

-- The listener of `popstate`.
pub back_or_forward : Text → AppState → AppState
back_or_forward pathname s = record s { address = pathname; route = parse_route_path pathname }

pub expire : AppState → AppState
expire s = record s { authenticated = some false }

abbrev pub is_nil {ℓ} : {A : Type ℓ} → List A → Bool
is_nil [] = true
is_nil (x ∷ xs) = false

-- The effect that replaces the cluster of the address.
pub redirect : AppState → AppState
redirect s =
    let id = cluster_id s in
    if not (is_nil s.clusters)
      && not (is_empty id)
      && not (text_eq (or_empty s.route.cluster_id) id)
    then navigate (record (s.route) { cluster_id = some id }) s
    else s

pub change_page : Page → AppState → AppState
change_page page s =
    navigate
      (record {
        page = page;
        cluster_id = some (cluster_id s);
        topic_name = none;
        topic_tab = none;
      })
      s

pub open_topic : Topic → TopicTab → AppState → AppState
open_topic item tab s =
    let id = cluster_id s in
    navigate
      (record {
        page = topics;
        cluster_id = some id;
        topic_name = some item.name;
        topic_tab = some tab;
      })
      (record s { selected_topic = some (record { cluster_id = id; item = item }) })
