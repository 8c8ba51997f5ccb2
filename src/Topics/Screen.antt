-- ===== src/Topics/Screen.antt =====
-- What web/src/pages/TopicsPage.tsx draws: the page, the rows of its table, and the dialog that
-- creates a topic, whose fields React does not control.
mod Tests
use kafka_manager.Base.{
  ℕ, Bool, true, false, not, Option, none, some, List, [], ◌∷◌, ◌++◌, flat_map, if◌then◌else◌, Text,
  codes, is_empty, length, ◌==◌,
}
use kafka_manager.Base.Decimal.{decimal}
use kafka_manager.Types.{Topic}
use kafka_manager.Markup.{
  Item, loading, text, status, empty, button, field, Tone, good, bad, when, error_items, link,
}
use kafka_manager.Markup.Dialog.{page_header, dialog}
use kafka_manager.Topics.{TopicsState, CreateState, NewTopic}

-- `open` carries the tab that is asked for.
pub data Action : Type 0 where
  press_create close_create submit : Action
  type_query type_name type_partitions type_replication : Text → Action
  copy_name : Text → Action
  open_topic open_messages : Topic → Action

pub row_items : Topic → List (Item Action)
row_items topic =
    link topic.name (open_topic topic)
    ∷ text (if topic.is_internal then codes "系统 Topic" else codes "业务 Topic")
    ∷ (if topic.under_replicated == 0
        then status good (codes "健康")
        else status bad (decimal topic.under_replicated ++ codes " 个 ISR 异常"))
    ∷ text (decimal topic.partition_count)
    ∷ text (decimal topic.replication_factor)
    ∷ button (codes "复制 " ++ topic.name) false (some (codes "复制名称")) (copy_name topic.name)
    ∷ link (codes "查看消息") (open_messages topic)
    ∷ []

abbrev table_items : List Topic → List (Item Action)
table_items [] = empty (codes "没有匹配的 Topic") (codes "调整搜索条件，或创建第一个 Topic。") ∷ []
table_items (t ∷ ts) =
    text (codes "Topic")
    ∷ text (codes "健康状态")
    ∷ text (codes "分区")
    ∷ text (codes "复制因子")
    ∷ text (codes "操作")
    ∷ flat_map row_items (t ∷ ts)

pub create_items : NewTopic → CreateState → List (Item Action)
create_items topic s = dialog (codes "创建 Topic") false close_create (
    field (codes "Topic 名称") topic.name false type_name
    ∷ field (codes "分区数") topic.partitions false type_partitions
    ∷ field (codes "复制因子") topic.replication_factor false type_replication
    ∷ (error_items s.error
        ++ (button (codes "取消") s.submitting none close_create
            ∷ button (if s.submitting then codes "正在创建…" else codes "创建 Topic") s.submitting none
                submit
            ∷ [])))

-- The page, with the dialog's form and state for the time that it is open.
pub page_items : Bool → NewTopic → CreateState → TopicsState → List (Item Action)
page_items read_only topic create s =
    page_header (codes "TOPICS") (codes "Topic 工作台") (codes "查看健康状态，进入 Topic 后直接读取消息、检查分区和修改配置。") (
      button (if read_only then codes "只读集群" else codes "创建 Topic") read_only
        (if read_only then some (codes "当前集群为只读模式") else none) press_create
      ∷ [])
    ++ (field (codes "搜索 Topic") s.query false type_query
        ∷ text (decimal (length s.items) ++ codes " 个 Topic")
        ∷ (error_items s.error
            ++ ((if s.loading then loading ∷ [] else table_items s.items)
                ++ when s.creating (create_items topic create))))
