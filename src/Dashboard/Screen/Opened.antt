-- ===== src/Dashboard/Screen/Opened.antt =====
-- Which clusters the overview offers to open.
use kafka_manager.Base.{◌≡◌, ◌↔◌, ◌⊎◌, List, [], ◌∷◌, arith, Text}
use kafka_manager.Base.Int.{ℤ}
use kafka_manager.Types.{Cluster, Status, DashboardPoint}
use kafka_manager.Markup.{Offered, OfferedBy, Offered-flat_map}
use kafka_manager.Markup.Dialog.{page_header}
use kafka_manager.Navigation.Connection.{cluster_status, DashboardLoadState}
use kafka_manager.Dashboard.Alerts.{content}
use kafka_manager.Dashboard.Screen.{
  ClusterPage, topics, consumers, open_cluster, alerts, sparkline, card_items, cluster_card,
  overview_items, page_items,
}

-- There is an online cluster with this id.
abbrev pub OnlineIn : Text → List Cluster → Type 0
OnlineIn id [] = ⊥
OnlineIn id (c ∷ cs) = ((c.id ≡ id) × (cluster_status c ≡ Status.online)) ⊎ OnlineIn id cs

module _ (to_locale : ℤ → Text) (to_upper_case : Text → Text) (id : Text) where
  card_items-offers_iff :
      (page : ClusterPage) (s : Status) (c : Cluster) (history : List DashboardPoint)
      → Offered (open_cluster id page) (card_items to_locale to_upper_case s c history)
        ↔ ((c.id ≡ id) × (s ≡ Status.online))
  unfolding card_items sparkline
  card_items-offers_iff topics Status.online c history = ground arith
  card_items-offers_iff consumers Status.online c history = ground arith
  card_items-offers_iff page Status.loading c history = ground arith
  card_items-offers_iff page Status.offline c history = ground arith

  cards-offers_iff :
      (page : ClusterPage) (history : Text → List DashboardPoint) (cs : List Cluster)
      → OfferedBy (cluster_card to_locale to_upper_case history) (open_cluster id page) cs
        ↔ OnlineIn id cs
  unfolding cluster_card
  cards-offers_iff page history [] = (λ h. h, λ h. h)
  cards-offers_iff page history (c ∷ cs) = ground (
    arith,
    card_items-offers_iff page (cluster_status c) c (history c.id),
    cards-offers_iff page history cs,
  )

  -- The overview offers to open the topics, or the consumer groups, of a cluster exactly if a cluster
  -- with that id is online, whatever the state of the requests for the dashboard.
  pub page_items-offers_iff :
      (page : ClusterPage) (state : DashboardLoadState) (history : Text → List DashboardPoint)
      (cs : List Cluster)
      → Offered (open_cluster id page) (page_items to_locale to_upper_case state history cs)
        ↔ OnlineIn id cs
  unfolding page_items page_header overview_items alerts content
  page_items-offers_iff page DashboardLoadState.idle history [] = ground arith
  page_items-offers_iff page DashboardLoadState.loading history [] = ground arith
  page_items-offers_iff page DashboardLoadState.error history [] = ground arith
  page_items-offers_iff page DashboardLoadState.ready history [] = ground (
    arith,
    Offered-flat_map (cluster_card to_locale to_upper_case history) (open_cluster id page) [],
  )
  page_items-offers_iff page state history (c ∷ cs) = ground (
    arith,
    Offered-flat_map (cluster_card to_locale to_upper_case history) (open_cluster id page) (c ∷ cs),
    cards-offers_iff page history (c ∷ cs),
  )
