-- ===== src/Dashboard/Screen.antt =====
-- What web/src/pages/DashboardPage.tsx draws. The coordinates of the trend line are floating-point
-- numbers and are left out; its maximum is not. `toLocaleString` and `toUpperCase` are parameters.
pub mod Opened
use kafka_manager.Base.{
  ℕ, ◌≡◌, ◌↔◌, ◌⊎◌, refl, inl, inr, Bool, true, false, ◌||◌, Option, none, some, List, [], ◌∷◌,
  ◌++◌, map, flat_map, arith, if◌then◌else◌, Text, codes, length, take, ltb,
}
use kafka_manager.Base.Decimal.{decimal}
use kafka_manager.Base.Int.{ℤ, pos, is_positive, is_zero, ◌-ℤ◌}
use kafka_manager.Types.{Cluster, Status, DashboardPoint}
use kafka_manager.Markup.{
  Item, loading, text, error_notice, status, Tone, good, warn, bad, neutral, link, Offered,
  Offered-append, OfferedBy, Offered-flat_map,
}
use kafka_manager.Markup.Dialog.{page_header}
use kafka_manager.Navigation.Connection.{cluster_status, DashboardLoadState}
use kafka_manager.Dashboard.{totals, count_status, lag_unavailable, lag_missing}
use kafka_manager.Dashboard.Alerts.{
  AlertTone, offline_tone, isr_tone, lag_tone, Content, content, overview, failed_notice,
  loading_notice,
}

pub data ClusterPage : Type 0 where
  topics consumers : ClusterPage

pub data Action : Type 0 where
  refresh : Action
  open_cluster : Text → ClusterPage → Action

abbrev tone : AlertTone → Tone
tone AlertTone.good = good
tone AlertTone.warn = warn
tone AlertTone.bad = bad

-- `Math.max(1, ...values)` of the trend.
abbrev larger : ℤ → ℤ → ℤ
larger a b = if is_positive (b -ℤ a) then b else a

pub maximum : ℤ → List DashboardPoint → ℤ
maximum m [] = m
maximum m (p ∷ ps) = maximum (larger m p.total_lag) ps

-- `values.at(-1)`
pub last_lag : List DashboardPoint → Option ℤ
last_lag [] = none
last_lag (p ∷ []) = some p.total_lag
last_lag (p ∷ q ∷ ps) = last_lag (q ∷ ps)

module _ (to_locale : ℤ → Text) (to_upper_case : Text → Text) where
  abbrev metric : Text → Text → Bool → Item Action
  metric label value warning = status (if warning then warn else neutral) (label ++ value)

  abbrev alert : Text → ℤ → AlertTone → Text → List (Item Action)
  alert label value t detail = status (tone t) (label ++ to_locale value) ∷ text detail ∷ []

  pub alerts : List Cluster → List (Item Action)
  alerts cs =
      let offline = count_status Status.offline cs in
      let loading' = count_status Status.loading cs in
      let all = totals cs in
      alert (codes "离线集群") (pos offline) (offline_tone cs) (
        if ltb 0 offline
        then codes "需要立即检查连接"
        else if ltb 0 loading'
        then decimal loading' ++ codes " 个集群正在首次采样"
        else codes "所有集群连接正常")
      ++ (alert (codes "ISR 异常") (pos all.isr) (isr_tone cs)
            (if ltb 0 all.isr then codes "存在副本不同步" else codes "副本同步正常")
          ++ alert (codes "消费积压") all.lag (lag_tone cs) (
              if ltb 0 (lag_unavailable cs)
              then decimal (lag_unavailable cs) ++ codes " 个集群的 Lag 暂不可用"
              else if is_zero all.lag
              then codes "当前没有积压"
              else codes "检查高 Lag 消费组"))

  pub sparkline : List DashboardPoint → List (Item Action)
  sparkline ps =
      text (codes "Lag 趋势")
      ∷ text (elim (last_lag ps) [ none ↦ codes "0" | some lag ↦ to_locale lag ])
      ∷ []

  abbrev status_label : Status → Cluster → Text
  status_label Status.online c = codes "在线 · " ++ (decimal c.latency_ms ++ codes "ms")
  status_label Status.offline c = codes "离线"
  status_label Status.loading c = codes "首次采样中"

  abbrev status_tone : Status → Tone
  status_tone Status.online = good
  status_tone Status.offline = bad
  status_tone Status.loading = neutral

  abbrev lag_warning : Cluster → Bool
  lag_warning c = lag_missing c || is_positive c.total_lag

  -- The part of a card below its header.
  pub card_items : Status → Cluster → List DashboardPoint → List (Item Action)
  card_items Status.online c history =
      metric (codes "Topics") (to_locale (pos c.topics)) false
      ∷ metric (codes "Groups") (to_locale (pos c.consumer_groups)) false
      ∷ metric (codes "Total Lag") (if lag_missing c then codes "不可用" else to_locale c.total_lag)
          (lag_warning c)
      ∷ metric (codes "ISR 异常") (to_locale (pos c.under_replicated)) (ltb 0 c.under_replicated)
      ∷ (sparkline history
          ++ (link (codes "查看 Topics") (open_cluster c.id topics)
              ∷ link (codes "消费组") (open_cluster c.id consumers)
              ∷ []))
  card_items Status.loading c history =
      text (codes "正在获取 Kafka 状态")
      ∷ text (codes "后台采样器正在建立连接并生成首份快照。")
      ∷ text (codes "页面刷新不会重复触发 Kafka 查询。")
      ∷ []
  card_items Status.offline c history =
      text (codes "无法连接 Kafka")
      ∷ text (elim (c.error) [ none ↦ [] | some message ↦ message ])
      ∷ text (codes "后台将自动退避并重试，请检查 Broker 地址、网络和认证配置。")
      ∷ []

  -- A card, with the history of its cluster.
  pub cluster_card : (Text → List DashboardPoint) → Cluster → List (Item Action)
  cluster_card history c =
      text (to_upper_case (take 1 c.name))
      ∷ text c.name
      ∷ text c.id
      ∷ status (status_tone (cluster_status c)) (status_label (cluster_status c) c)
      ∷ card_items (cluster_status c) c (history c.id)

  abbrev header : List (Item Action)
  header =
      page_header (codes "OVERVIEW") (codes "Kafka 态势总览")
        (codes "后台持续采样 Kafka，页面读取内存快照，不会随浏览器数量增加 Kafka 压力。") (link (codes "刷新显示") refresh ∷ [])

  pub overview_items : (Text → List DashboardPoint) → List Cluster → List (Item Action)
  overview_items history cs =
      alerts cs
      ++ (metric (codes "Brokers") (to_locale (pos (totals cs).brokers)) false
          ∷ metric (codes "Topics") (to_locale (pos (totals cs).topics)) false
          ∷ metric (codes "Partitions") (to_locale (pos (totals cs).partitions)) false
          ∷ metric (codes "Consumer Groups") (to_locale (pos (totals cs).groups)) false
          ∷ text (codes "集群")
          ∷ text (codes "连接、规模和消费趋势")
          ∷ text (decimal (length cs) ++ codes " 个已配置集群")
          ∷ flat_map (cluster_card history) cs)

  abbrev body_items : Content → (Text → List DashboardPoint) → List Cluster → List (Item Action)
  body_items failed_notice history cs =
      error_notice (codes "暂时无法读取后台监控快照，请检查 Kafka Manager 服务状态后重试。") ∷ []
  body_items loading_notice history cs = loading ∷ []
  body_items overview history cs = overview_items history cs

  pub page_items :
      DashboardLoadState → (Text → List DashboardPoint) → List Cluster → List (Item Action)
  page_items state history cs = header ++ body_items (content state cs) history cs
