-- ===== src/Workspace/Screen.antt =====
-- What web/src/pages/TopicWorkspace.tsx draws, and what its controls do: the heading, the tabs, the
-- panels of the tabs, and the dialog. A tab that is chosen mounts its panel anew, and `mounts` counts
-- that. The panel of messages is MessagesPage, whose items are not listed here. What is typed into a field that React
-- does not control is a field of the panel.
pub mod Acting
pub mod Quiet
use kafka_manager.Base.{
  ◌+◌, ℕ, Bool, true, false, not, ◌&&◌, Option, none, some, List, [], ◌∷◌, ◌++◌, map, flat_map,
  if◌then◌else◌, Text, codes, is_empty, text_eq, take, filter, ◌==◌,
}
use kafka_manager.Base.Decimal.{decimal}
use kafka_manager.Types.{Topic, TopicPartition}
use kafka_manager.Confirm.{enabled}
use kafka_manager.Feedback.{Provider}
use kafka_manager.Markup.{
  Item, text, error_notice, notice, status, button, field, Tone, good, bad, neutral, when,
  error_items, link, integer, joined,
}
use kafka_manager.Markup.Dialog.{confirm_dialog}
use kafka_manager.Navigation.Routes.{TopicTab, tab_name, overview, partitions, config}
use kafka_manager.Workspace.{
  WorkspaceState, PartitionsState, AddOutcome, start, open_delete, type_confirmation, close_delete,
  submit_delete, remove_answered, start_refresh, refresh_answered, add_answered,
}
use kafka_manager.Workspace.Configs
use kafka_manager.Workspace.Configs.{
  ConfigsState, ConfigsAnswer, ConfigChange, TopicConfig, alter, alter_answered, load_answered,
  set_query, shown, shown_value,
}

pub data Panel : Type 0 where
  overview_panel messages_panel : Panel
  partitions_panel : PartitionsState → Text → Panel
  config_panel : ConfigsState → Text → Text → Panel

pub data Action : Type 0 where
  back refresh press_delete : Action
  choose_tab : TopicTab → Action
  type_name : Text → Action
  cancel_delete confirm_delete toggle_adding add : Action
  type_count type_query type_config_name type_config_value : Text → Action
  apply_config : Action

-- What the page asks of the server or of the application: `remove`, `expand` with the count as it is
-- typed, and `change` write.
pub data Request : Type 0 where
  leave reload list_configs remove : Request
  expand : Text → Request
  change : ConfigChange → Request

pub record Page : Type 0 where
  pub state : WorkspaceState
  pub tab : TopicTab
  pub panel : Panel
  pub mounts : ℕ

abbrev read_only_title : Bool → Option Text
read_only_title read_only = if read_only then some (codes "当前集群为只读模式") else none

-- A button that writes, which says so if it is disabled for a read-only cluster.
abbrev write_button : Bool → Text → Action → Item Action
write_button read_only label a =
    button (if read_only then codes "只读集群" else label) read_only (read_only_title read_only) a

pub heading : Text → Topic → Bool → WorkspaceState → List (Item Action)
heading cluster_id topic read_only s =
    link (codes "返回 Topics") back
    ∷ text (codes "TOPICS / " ++ cluster_id)
    ∷ text topic.name
    ∷ (if topic.under_replicated == 0
        then status good (codes "运行正常")
        else status bad (codes "ISR 异常"))
    ∷ text (decimal topic.partition_count ++ codes " 分区")
    ∷ text (codes "复制因子 " ++ decimal topic.replication_factor)
    ∷ button (if s.refreshing then codes "刷新中…" else codes "刷新") s.refreshing none refresh
    ∷ write_button read_only (codes "删除 Topic") press_delete
    ∷ []

pub tabs : Topic → List (Item Action)
tabs topic =
    link (codes "概览") (choose_tab overview)
    ∷ link (codes "消息") (choose_tab TopicTab.messages)
    ∷ link (codes "分区" ++ decimal topic.partition_count) (choose_tab partitions)
    ∷ link (codes "配置") (choose_tab config)
    ∷ []

pub overview_items : Topic → List (Item Action)
overview_items topic =
    text (codes "分区" ++ decimal topic.partition_count)
    ∷ text (codes "复制因子" ++ decimal topic.replication_factor)
    ∷ status (if topic.under_replicated == 0 then good else bad)
        (codes "ISR 异常" ++ decimal topic.under_replicated)
    ∷ text (codes "类型" ++ (if topic.is_internal then codes "系统" else codes "业务"))
    ∷ link (codes "查看全部") (choose_tab partitions)
    ∷ map
        (λ (p : TopicPartition). text (
          codes "P"
          ++ (decimal p.id
              ++ (codes " Leader " ++ (integer p.leader ++ (codes " ISR " ++ joined p.isr))))))
        (take 12 topic.partitions)

abbrev offline_status : List ℕ → Item Action
offline_status [] = status good (codes "无")
offline_status (n ∷ ns) = status bad (joined (n ∷ ns))

pub partition_items : TopicPartition → List (Item Action)
partition_items p =
    text (codes "P" ++ decimal p.id)
    ∷ text (integer p.leader)
    ∷ text (joined p.replicas)
    ∷ text (joined p.isr)
    ∷ offline_status p.offline_replicas
    ∷ []

pub partitions_items : Topic → Bool → PartitionsState → Text → List (Item Action)
partitions_items topic read_only s count =
    write_button read_only (codes "增加分区") toggle_adding
    ∷ (when s.adding (field (codes "新增数量") count false type_count ∷ link (codes "确认扩容") add ∷ [])
        ++ (when (not (is_empty s.notice)) (notice s.notice ∷ [])
            ++ (error_items s.error ++ flat_map partition_items topic.partitions)))

pub config_items : TopicConfig → List (Item Action)
config_items c = text c.name ∷ text (shown_value c) ∷ text c.source ∷ []

pub configs_items : (Text → Text) → Bool → ConfigsState → Text → Text → List (Item Action)
configs_items to_lower_case read_only s name value =
    field (codes "筛选配置项") s.query false type_query
    ∷ field (codes "配置项") name read_only type_config_name
    ∷ field (codes "配置值") value read_only type_config_value
    ∷ write_button read_only (codes "应用配置") apply_config
    ∷ (error_items s.error ++ flat_map config_items (shown to_lower_case s))

pub delete_dialog : Topic → WorkspaceState → List (Item Action)
delete_dialog topic s =
    confirm_dialog (codes "删除 Topic")
      (text (codes "此操作不可撤销。") ∷ text (codes "Topic 的全部消息、分区和配置都会被永久删除。") ∷ []) (codes "永久删除 Topic")
      (some topic.name) s.typed s.deleting s.error type_name cancel_delete confirm_delete

abbrev read_only_notice : Text
read_only_notice = codes "当前集群为只读模式，可以查看 Topic、消息、分区和配置，但不能执行 Kafka 写操作。"

-- The panel that a tab mounts.
pub mounted : Provider → TopicTab → Panel
mounted feedback overview = overview_panel
mounted feedback TopicTab.messages = messages_panel
mounted feedback partitions =
    partitions_panel (record { error = []; notice = []; adding = false; feedback = feedback })
      (codes "1")
mounted feedback config = config_panel (Configs.start feedback) [] []

pub opened : Provider → TopicTab → Page
opened feedback tab = record {
  state = start feedback;
  tab = tab;
  panel = mounted feedback tab;
  mounts = 0;
}

module _ (to_lower_case : Text → Text) (topic : Topic) (read_only : Bool) where
  pub panel_items : Panel → List (Item Action)
  panel_items overview_panel = overview_items topic
  panel_items messages_panel = []
  panel_items (partitions_panel s count) = partitions_items topic read_only s count
  panel_items (config_panel s name value) = configs_items to_lower_case read_only s name value

  pub page_items : Text → Page → List (Item Action)
  page_items cluster_id p =
      heading cluster_id topic read_only p.state
      ++ (tabs topic
          ++ (when read_only (text read_only_notice ∷ [])
              ++ (error_items p.state.error
                  ++ (panel_items p.panel
                      ++ when p.state.confirming_delete (delete_dialog topic p.state)))))
