-- ===== src/Consumers/Page/Display.antt =====
-- What web/src/pages/ConsumersPage.tsx draws: the page, the drawer over it, and the dialog over the
-- drawer. The progress of a partition is a floating-point number, which `progress` shows as text;
-- `toLocaleString` is a parameter too, and so is the offset that the form holds as text.
pub mod Resetting
mod Tests
use kafka_manager.Base.{
  ℕ, Bool, true, false, not, ◌||◌, Option, none, some, List, [], ◌∷◌, ◌++◌, flat_map, if◌then◌else◌,
  Text, codes, text_eq, is_empty, length, filter, ltb,
}
use kafka_manager.Base.Decimal.{decimal}
use kafka_manager.Base.Int.{ℤ, pos, is_zero}
use kafka_manager.Markup.{
  Item, loading, text, error_notice, status, empty, button, field, Tone, good, warn, bad, neutral,
  when, error_items, link,
}
use kafka_manager.Markup.Dialog.{page_header, dialog, confirm_dialog}
use kafka_manager.Consumers.{
  PartitionLag, ConsumerGroup, ConsumerSort, lag_desc, members_desc, name_asc, is_lagging,
  summarize_consumer_groups, filter_partitions,
}
use kafka_manager.Consumers.Page.{
  HealthFilter, all, lagging, healthy, ConsumersState, shown, ResetRequest, DrawerState,
  reset_mode_label,
}
use kafka_manager.Consumers.Page.Labels.{GroupTone, group_tone, lag_label}

pub data Action : Type 0 where
  reload close_drawer ask_reset cancel_reset confirm_reset : Action
  type_query type_partition type_offset type_name : Text → Action
  pick_health : HealthFilter → Action
  pick_sort : ConsumerSort → Action
  pick_lag_only : Bool → Action
  pick_mode : Text → Action
  open_group : ConsumerGroup → Action

abbrev tone : GroupTone → Tone
tone GroupTone.good = good
tone GroupTone.warn = warn
tone GroupTone.bad = bad
tone GroupTone.neutral = neutral

abbrev or_text : Text → Text → Text
or_text value fallback = if is_empty value then fallback else value

abbrev state_items : ConsumerGroup → Item Action
state_items g = status (tone (group_tone g)) (or_text g.state (codes "Unknown"))

abbrev lagging_count : ConsumerGroup → ℕ
lagging_count g = length (filter is_lagging g.partitions)

-- The options of the position, which are disabled for a read-only cluster.
abbrev mode_option : Bool → Text → Text → Item Action
mode_option read_only label mode = button label read_only none (pick_mode mode)

abbrev danger_zone : List (Item Action)
danger_zone =
    text (codes "DANGER ZONE")
    ∷ text (codes "重置 Consumer Offset")
    ∷ text (codes "该操作会改变消费位置，可能导致消息重复消费或跳过。执行前请确认消费者已经停止。")
    ∷ []

module _ (to_locale : ℤ → Text) (progress : PartitionLag → Text) (locale_compare : Text → Text → ℤ)
    (to_lower_case : Text → Text) where
  abbrev metric : Text → Text → Tone → Text → List (Item Action)
  metric label value t detail = status t (label ++ value) ∷ text detail ∷ []

  pub summary_items : List ConsumerGroup → List (Item Action)
  summary_items groups =
      let s = summarize_consumer_groups groups in
      metric (codes "消费组") (to_locale (pos s.groups)) neutral (codes "当前集群")
      ++ (metric (codes "存在积压") (to_locale (pos s.lagging_groups))
            (if ltb 0 s.lagging_groups then warn else good) (codes "需要关注")
          ++ (metric (codes "Total Lag") (to_locale s.total_lag)
                (if is_zero s.total_lag then good else warn) (codes "未消费消息")
              ++ metric (codes "积压分区") (to_locale (pos s.lagging_partitions))
                  (if ltb 0 s.lagging_partitions then bad else good) (codes "受影响分区")))

  pub group_items : ConsumerGroup → List (Item Action)
  group_items g =
      link g.name (open_group g)
      ∷ text (or_text g.protocol (codes "未声明协议"))
      ∷ state_items g
      ∷ text (decimal g.member_count)
      ∷ text (decimal (length g.partitions))
      ∷ text (
          if ltb 0 (lagging_count g)
          then decimal (lagging_count g) ++ codes " 个积压"
          else codes "全部正常")
      ∷ text (to_locale g.total_lag)
      ∷ text (lag_label g.total_lag)
      ∷ link (codes "诊断") (open_group g)
      ∷ []

  abbrev table_items : List ConsumerGroup → List (Item Action)
  table_items [] = empty (codes "没有匹配的消费组") (codes "调整搜索或积压筛选条件。") ∷ []
  table_items (g ∷ gs) = flat_map group_items (g ∷ gs)

  pub page_items : ConsumersState → List (Item Action)
  page_items s =
      page_header (codes "04 / CONSUMERS") (codes "消费组诊断") (codes "从积压最严重的消费组开始，逐层检查分区与 Offset 进度。")
        (link (codes "重新计算 Lag") reload ∷ [])
      ++ (summary_items s.items
          ++ (field (codes "搜索消费组") s.query false type_query
              ∷ link (codes "全部") (pick_health all)
              ∷ link (codes "仅有积压") (pick_health lagging)
              ∷ link (codes "仅无积压") (pick_health healthy)
              ∷ link (codes "Lag 从高到低") (pick_sort lag_desc)
              ∷ link (codes "成员数从高到低") (pick_sort members_desc)
              ∷ link (codes "名称 A–Z") (pick_sort name_asc)
              ∷ text (
                  decimal (length (shown locale_compare to_lower_case s))
                  ++ (codes " / " ++ decimal (length s.items)))
              ∷ (error_items s.error
                  ++ (if s.loading
                      then loading ∷ []
                      else table_items (shown locale_compare to_lower_case s)))))

  pub partition_items : PartitionLag → List (Item Action)
  partition_items p =
      text p.topic
      ∷ text (codes "P" ++ decimal p.partition)
      ∷ text (to_locale p.current_offset ++ (codes " → " ++ to_locale p.end_offset))
      ∷ text (progress p ++ codes "%")
      ∷ text (to_locale p.lag)
      ∷ []

  abbrev partitions_items : List PartitionLag → List (Item Action)
  partitions_items [] = empty (codes "没有匹配的分区") (codes "调整搜索条件或关闭积压筛选。") ∷ []
  partitions_items (p ∷ ps) = flat_map partition_items (p ∷ ps)

  -- The form that asks to reset the offsets.
  pub reset_items : Bool → Text → DrawerState → List (Item Action)
  reset_items read_only offset d =
      mode_option read_only (codes "重置到最早") (codes "earliest")
      ∷ mode_option read_only (codes "重置到最新") (codes "latest")
      ∷ mode_option read_only (codes "指定 Offset") (codes "absolute")
      ∷ (when (text_eq d.mode (codes "absolute"))
            (field (codes "Offset") offset read_only type_offset ∷ [])
          ++ (button
                (if read_only
                  then codes "只读集群"
                  else if d.resetting
                  then codes "正在重置…"
                  else codes "重置 Offset")
                (d.resetting || read_only) (if read_only then some (codes "当前集群为只读模式") else none)
                ask_reset
              ∷ error_items d.error))

  abbrev reset_dialog : ConsumerGroup → DrawerState → Option ResetRequest → List (Item Action)
  reset_dialog g d none = []
  reset_dialog g d (some r) =
      confirm_dialog (codes "重置 Consumer Offset")
        (text (codes "消费位置将被修改为“" ++ (reset_mode_label r ++ codes "”。"))
          ∷ text (codes "可能导致消息重复消费或被跳过。请先确认该消费组的消费者已经停止。")
          ∷ [])
        (codes "确认重置 Offset") (some g.name) d.typed d.resetting d.error type_name cancel_reset
        confirm_reset

  pub drawer_items :
      Text → Bool → ConsumerGroup → Text → Bool → Text → DrawerState → List (Item Action)
  drawer_items cluster_id read_only g query lag_only offset d =
      let ps = filter_partitions locale_compare to_lower_case g.partitions query lag_only in
      text (codes "CONSUMER GROUP")
      ∷ text g.name
      ∷ text (cluster_id ++ (codes " · " ++ or_text g.protocol (codes "未声明协议")))
      ∷ link (codes "关闭") close_drawer
      ∷ status (tone (group_tone g)) (codes "状态" ++ or_text g.state (codes "Unknown"))
      ∷ status neutral (codes "成员" ++ to_locale (pos g.member_count))
      ∷ status (if is_zero g.total_lag then good else warn)
          (codes "Total Lag" ++ to_locale g.total_lag)
      ∷ status (if ltb 0 (lagging_count g) then bad else good) (
          codes "积压分区"
          ++ (decimal (lagging_count g) ++ (codes " / " ++ decimal (length g.partitions))))
      ∷ text (codes "分区进度")
      ∷ text (decimal (length ps) ++ codes " 个分区")
      ∷ field (codes "搜索 Topic 或 Partition") query false type_partition
      ∷ link (codes "仅看积压") (pick_lag_only (not lag_only))
      ∷ (partitions_items ps
          ++ (danger_zone ++ (reset_items read_only offset d ++ reset_dialog g d d.reset_request)))
