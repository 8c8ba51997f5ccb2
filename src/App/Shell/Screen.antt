-- ===== src/App/Shell/Screen.antt =====
-- What web/src/App.tsx draws around the pages: the navigation, the sidebar, and the top bar with the
-- cluster picker, whose options are buttons, and the switch of the theme.
use kafka_manager.Base.{
  ◌≡◌, ◌↔◌, refl, inl, inr, Bool, true, false, some, List, [], ◌∷◌, ◌++◌, map, flat_map, find, any,
  arith, text_eq_iff, length, filter, Text, codes, text_eq, if◌then◌else◌,
}
use kafka_manager.Base.Decimal.{decimal}
use kafka_manager.Types.{Cluster}
use kafka_manager.Theme.{ThemeMode, mode_name, next_mode}
use kafka_manager.Markup.{
  Item, Offered, Offered-append, good, warn, text, status, button, when, link,
}
use kafka_manager.Navigation.Connection.{DashboardLoadState, connection_view}
use kafka_manager.Navigation.Routes.{Page}
use kafka_manager.App.{AppState, cluster_id}
use kafka_manager.App.Shell.{nav, health_warning, is_read_only}

pub data Action : Type 0 where
  change_page : Page → Action
  toggle_sidebar close_menu open_menu logout : Action
  pick_cluster : Text → Action
  set_mode : ThemeMode → Action

pub page_label : Page → Text
page_label Page.dashboard = codes "态势总览"
page_label Page.topics = codes "Topics"
page_label Page.messages = codes "消息检索"
page_label Page.consumers = codes "消费组"
page_label Page.settings = codes "集群配置"
page_label Page.audit = codes "操作审计"

pub nav_items : List (Item Action)
nav_items = map (λ page. link (page_label page) (change_page page)) nav

abbrev toggle_label : Bool → Text
toggle_label collapsed = if collapsed then codes "展开侧栏" else codes "收起侧栏"

abbrev foot_text : DashboardLoadState → List Cluster → Text
foot_text state [] = elim state [
  | DashboardLoadState.error ↦ codes "集群状态不可用"
  | _ ↦ codes "正在载入集群状态"
]
foot_text state (c ∷ cs) =
    decimal (length (filter (λ d. d.is_online) (c ∷ cs)))
    ++ (codes "/" ++ (decimal (length (c ∷ cs)) ++ codes " 集群在线"))

pub sidebar_items : AppState → List (Item Action)
sidebar_items s =
    nav_items
    ++ (status (if health_warning s.clusters then warn else good)
          (foot_text s.dashboard_state s.clusters)
        ∷ link (toggle_label s.sidebar_collapsed) toggle_sidebar
        ∷ [])

abbrev mode_label : ThemeMode → Text
mode_label ThemeMode.system = codes "自动"
mode_label ThemeMode.light = codes "日间"
mode_label ThemeMode.dark = codes "夜间"

pub theme_switch : ThemeMode → Item Action
theme_switch mode =
    button (mode_label mode) false (some (codes "主题：" ++ mode_name mode))
      (set_mode (next_mode mode))

abbrev cluster_option : Cluster → List (Item Action)
cluster_option c = link c.name (pick_cluster c.id) ∷ []

-- The badge, the state of the connection, the switch and the button that logs out.
abbrev bar_end : Bool → Text → ThemeMode → List (Item Action)
bar_end read_only connection mode =
    when read_only (text (codes "只读") ∷ [])
    ++ (text connection ∷ theme_switch mode ∷ link (codes "退出登录") logout ∷ [])

pub top_bar_items : ThemeMode → AppState → List (Item Action)
top_bar_items mode s =
    link (codes "打开导航") open_menu
    ∷ text (codes "当前集群")
    ∷ (flat_map cluster_option s.clusters
        ++ bar_end (is_read_only s)
            (connection_view (find (λ c. text_eq c.id (cluster_id s)) s.clusters)
              s.dashboard_state).label
            mode)

abbrev scrim : Bool → List (Item Action)
scrim menu_open = when menu_open (link (codes "关闭导航") close_menu ∷ [])

-- The frame: the sidebar, what closes the menu, and the top bar.
pub frame_items : ThemeMode → AppState → List (Item Action)
frame_items mode s =
    text (codes "K")
    ∷ text (codes "Kafka Manager")
    ∷ text (codes "Developer Console")
    ∷ (sidebar_items s ++ (scrim s.menu_open ++ top_bar_items mode s))

-- The ids that the picker offers are those of the clusters that are loaded.
picks_iff :
    (cs : List Cluster) (id : Text)
    → Offered (pick_cluster id) (flat_map cluster_option cs)
      ↔ (any (λ c. text_eq c.id id) cs ≡ true)
unfolding flat_map
picks_iff [] id = ground arith
picks_iff (c ∷ cs) id = ground (arith, picks_iff cs id, text_eq_iff c.id id)

bar_end-silent :
    (id : Text) (read_only : Bool) (connection : Text) (mode : ThemeMode)
    → ¬ Offered (pick_cluster id) (bar_end read_only connection mode)
unfolding theme_switch
bar_end-silent id true connection mode = ground arith
bar_end-silent id false connection mode = ground arith

top_bar_items-picks_iff :
    (mode : ThemeMode) (s : AppState) (id : Text)
    → Offered (pick_cluster id) (top_bar_items mode s)
      ↔ (any (λ c. text_eq c.id id) s.clusters ≡ true)
unfolding top_bar_items
top_bar_items-picks_iff mode s id =
    let connection =
      (connection_view (find (λ c. text_eq c.id (cluster_id s)) s.clusters)
        s.dashboard_state).label in
    ground (
      arith,
      Offered-append (pick_cluster id) (flat_map cluster_option s.clusters)
          (bar_end (is_read_only s) connection mode),
      picks_iff s.clusters id,
      bar_end-silent id (is_read_only s) connection mode,
    )

sidebar_items-silent : (s : AppState) (id : Text) → ¬ Offered (pick_cluster id) (sidebar_items s)
unfolding sidebar_items nav_items nav
sidebar_items-silent s id = ground arith

sidebar_items-pages : (s : AppState) (page : Page) → Offered (change_page page) (sidebar_items s)
unfolding sidebar_items nav_items nav
sidebar_items-pages s Page.dashboard = inl refl
sidebar_items-pages s Page.topics = inr (inl refl)
sidebar_items-pages s Page.messages = inr (inr (inl refl))
sidebar_items-pages s Page.consumers = inr (inr (inr (inl refl)))
sidebar_items-pages s Page.settings = inr (inr (inr (inr (inl refl))))
sidebar_items-pages s Page.audit = inr (inr (inr (inr (inr (inl refl)))))

scrim-silent : (id : Text) (menu_open : Bool) → ¬ Offered (pick_cluster id) (scrim menu_open)
scrim-silent id true = ground arith
scrim-silent id false = ground arith

-- The frame offers a cluster exactly if it is loaded, and every page at any time.
pub frame_items-offers_iff :
    (mode : ThemeMode) (s : AppState) (id : Text) (page : Page)
    → (Offered (pick_cluster id) (frame_items mode s)
        ↔ (any (λ c. text_eq c.id id) s.clusters ≡ true))
      × Offered (change_page page) (frame_items mode s)
unfolding frame_items
frame_items-offers_iff mode s id page = (
  ground (
    arith,
    Offered-append (pick_cluster id) (sidebar_items s) (scrim s.menu_open ++ top_bar_items mode s),
    Offered-append (pick_cluster id) (scrim s.menu_open) (top_bar_items mode s),
    sidebar_items-silent s id,
    scrim-silent id s.menu_open,
    top_bar_items-picks_iff mode s id,
  ),
  ground (
    arith,
    Offered-append (change_page page) (sidebar_items s) (scrim s.menu_open ++ top_bar_items mode s),
    sidebar_items-pages s page,
  ),
)
