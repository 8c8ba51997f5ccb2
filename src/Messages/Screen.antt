-- ===== src/Messages/Screen.antt =====
-- What web/src/pages/MessagesPage.tsx draws: the page, the panel of filters, and the form that sends
-- a message, whose fields without a state are `Fields`. An option of a `select` is a button. What
-- `JsonViewer` draws, `toLocaleString` of a count and of a time, `String` of a number and the printed
-- headers are parameters, as `JSON.parse` and `JSON.stringify` are.
pub mod Conditions
mod Tests
use kafka_manager.Base.{
  ℕ, Bool, true, false, Option, none, some, List, [], ◌∷◌, ◌++◌, flat_map, if◌then◌else◌, Text,
  codes, text_eq, is_empty, length, ltb, leb, suc, ◌==◌,
}
use kafka_manager.Base.Decimal.{decimal}
use kafka_manager.Base.Int.{ℤ}
use kafka_manager.Types.{MessageRecord, Header}
use kafka_manager.Markup.{
  Item, text, notice, status, empty, button, field, neutral, when, error_items, link,
}
use kafka_manager.Markup.Dialog.{page_header}
use kafka_manager.Filters.JsonValue.{Json}
use kafka_manager.Filters.{
  KeyOperator, ValueOperator, JsonOperator, JsonFilterCondition, Number, MessageFilters,
  active_filter_count,
}
use kafka_manager.Messages.{MessagesState}
use kafka_manager.Messages.Preview.{ParsedValue, parse_message_value, preview}
use kafka_manager.Messages.Producer.{Kind, ProducerState, Fields}

pub data Action : Type 0 where
  toggle_producer submit_query toggle_filters follow : Action
  type_topic type_partition pick_mode type_offset type_timestamp type_limit : Text → Action
  select : MessageRecord → Action
  close_filters clear_filters add_condition : Action
  pick_key_operator : KeyOperator → Action
  pick_value_operator : ValueOperator → Action
  type_key type_value type_scan_limit : Text → Action
  type_path type_target : Text → Text → Action
  pick_operator : Text → JsonOperator → Action
  remove_condition : Text → Action
  pick_kind : Kind → Action
  send_topic send_partition send_key send_value : Text → Action
  close_producer send : Action

abbrev needs_no_value : JsonOperator → Bool
needs_no_value JsonOperator.exists = true
needs_no_value _ = false

-- A row of the list of conditions; its number starts at 0.
pub condition_items : ℕ → JsonFilterCondition → List (Item Action)
condition_items index c =
    text (if index == 0 then codes "IF" else codes "AND")
    ∷ field (codes "字段路径") c.path false (type_path c.id)
    ∷ link (codes "等于") (pick_operator c.id JsonOperator.eq)
    ∷ link (codes "不等于") (pick_operator c.id JsonOperator.neq)
    ∷ link (codes "包含") (pick_operator c.id JsonOperator.contains)
    ∷ link (codes "字段存在") (pick_operator c.id JsonOperator.exists)
    ∷ link (codes "大于") (pick_operator c.id JsonOperator.gt)
    ∷ link (codes "大于等于") (pick_operator c.id JsonOperator.gte)
    ∷ link (codes "小于") (pick_operator c.id JsonOperator.lt)
    ∷ link (codes "小于等于") (pick_operator c.id JsonOperator.lte)
    ∷ field (codes "目标值") c.value (needs_no_value c.operator) (type_target c.id)
    ∷ link (codes "移除 JSON 条件 " ++ decimal (suc index)) (remove_condition c.id)
    ∷ []

abbrev rows : ℕ → List JsonFilterCondition → List (Item Action)
rows index [] = []
rows index (c ∷ cs) = condition_items index c ++ rows (suc index) cs

abbrev conditions_items : List JsonFilterCondition → List (Item Action)
conditions_items [] = link (codes "添加第一个 JSON 字段条件") add_condition ∷ []
conditions_items (c ∷ cs) = rows 0 (c ∷ cs)

abbrev limit_items : Text → List (Item Action)
limit_items scan_limit =
    field (codes "最多扫描") scan_limit false type_scan_limit
    ∷ text (codes "条")
    ∷ text (codes "扫描越多越可能找到历史消息，也会增加查询时间和 Kafka 读取量。最大 50,000 条。")
    ∷ []

module _ (show_number : Number → Text) where
  -- `MessageFilterPanel`
  pub panel_items : MessageFilters → List (Item Action)
  panel_items f =
      text (codes "SERVER-SIDE FILTER")
      ∷ text (codes "高级过滤")
      ∷ text (codes "服务端扫描 Kafka 消息后过滤；多个条件使用 AND，字符串匹配区分大小写。")
      ∷ link (codes "清空") clear_filters
      ∷ link (codes "收起过滤条件") close_filters
      ∷ link (codes "包含") (pick_key_operator KeyOperator.contains)
      ∷ link (codes "精确等于") (pick_key_operator KeyOperator.exact)
      ∷ link (codes "前缀匹配") (pick_key_operator KeyOperator.prefix)
      ∷ field (codes "Key") f.key_filter false type_key
      ∷ link (codes "包含") (pick_value_operator ValueOperator.contains)
      ∷ link (codes "精确等于") (pick_value_operator ValueOperator.exact)
      ∷ field (codes "Value 文本") f.value_filter false type_value
      ∷ text (codes "JSON 字段条件")
      ∷ text (codes "支持嵌套路径和数组下标，例如 data.user.id、items.0.sku")
      ∷ button (codes "添加条件") (leb 5 (length f.json_filters)) none add_condition
      ∷ (conditions_items f.json_filters ++ limit_items (show_number f.scan_limit))

abbrev topic_field : Option Text → Text → (Text → Action) → List (Item Action)
topic_field none value type = field (codes "Topic") value false type ∷ []
topic_field (some t) value type =
    if is_empty t then field (codes "Topic") value false type ∷ [] else []

abbrev when_filled : Text → List (Item Action)
when_filled [] = []
when_filled (c ∷ message) = notice (c ∷ message) ∷ []

-- `Producer`
pub producer_items : Option Text → Fields → ProducerState → List (Item Action)
producer_items fixed_topic f s =
    text (codes "生产消息")
    ∷ text (codes "消息正文不会写入审计日志")
    ∷ link (codes "JSON") (pick_kind Kind.json)
    ∷ link (codes "Text") (pick_kind Kind.text)
    ∷ (topic_field fixed_topic f.topic send_topic
        ++ (field (codes "Partition") f.partition false send_partition
            ∷ field (codes "Key") f.key false send_key
            ∷ field (codes "Value") s.value false send_value
            ∷ (error_items s.error
                ++ (when_filled s.success
                    ++ (link (codes "关闭") close_producer
                        ∷ button (if s.sending then codes "发送中…" else codes "发送消息") s.sending none
                            send
                        ∷ [])))))

-- The form of the query.
pub query_items : Option Text → MessagesState → List (Item Action)
query_items fixed_topic s =
    let count = active_filter_count s.filters in
    topic_field fixed_topic s.topic type_topic
    ++ (field (codes "Partition") s.partition false type_partition
        ∷ link (codes "最近消息") (pick_mode (codes "latest"))
        ∷ link (codes "最早消息") (pick_mode (codes "earliest"))
        ∷ link (codes "指定 Offset") (pick_mode (codes "offset"))
        ∷ link (codes "指定时间") (pick_mode (codes "timestamp"))
        ∷ (when (text_eq s.mode (codes "offset"))
              (field (codes "Offset") s.offset false type_offset ∷ [])
            ++ (when (text_eq s.mode (codes "timestamp"))
                  (field (codes "时间") s.timestamp false type_timestamp ∷ [])
                ++ (field (codes "最多返回") s.limit false type_limit
                    ∷ link (codes "过滤" ++ (if ltb 0 count then decimal count else []))
                        toggle_filters
                    ∷ button (if s.loading then codes "查询中" else codes "查询") s.loading none
                        submit_query
                    ∷ link (if s.live then codes "停止" else codes "实时跟随") follow
                    ∷ []))))

abbrev producer_button : Bool → Item Action
producer_button read_only =
    button (if read_only then codes "只读集群" else codes "生产消息") read_only
      (if read_only then some (codes "当前集群为只读模式") else none) toggle_producer

abbrev heading : Bool → Bool → List (Item Action)
heading embedded read_only =
    if embedded
    then text (codes "消息") ∷ text (codes "当前 Topic 已自动绑定，并载入最近消息") ∷ producer_button read_only ∷ []
    else page_header (codes "MESSAGES") (codes "消息检索")
        (codes "跨 Topic 查询 Kafka 原始消息；也可以从 Topic 工作区直接进入。") (producer_button read_only ∷ [])

abbrev live_strip : MessagesState → List (Item Action)
live_strip s = when s.live (
    text (
      codes "正在监听新消息，仅保留最近 500 条"
      ++ (if ltb 0 s.live_filter_count
          then codes " · 已应用 " ++ (decimal s.live_filter_count ++ codes " 条过滤条件")
          else []))
    ∷ [])

abbrev kind_label : ParsedValue → Text
kind_label (ParsedValue.json v) = codes "JSON"
kind_label (ParsedValue.text t) = codes "TEXT"

abbrev nothing_shown : MessagesState → Item Action
nothing_shown s =
    if s.live
    then empty (codes "等待新消息") (codes "连接已建立，正在监听新记录。")
    else if s.loading
    then empty (codes "正在载入") (codes "正在读取所选 Topic 的消息。")
    else empty (codes "没有消息") (codes "当前查询条件没有返回记录。")

module _ (parse : Text → Option Json) (stringify : Json → Text) (to_locale : ℕ → Text)
    (local_time : ℤ → Text) (show_headers : List Header → Text) (show_number : Number → Text)
    (viewer : Text → List (Item Action)) where
  -- What the answer says of the filters.
  pub result_items : MessagesState → List (Item Action)
  result_items s = elim s.query_meta [
    | none ↦ []
    | some m ↦ when (ltb 0 m.filters) (
        text (
          codes "已扫描 "
          ++ (to_locale m.scanned
              ++ (codes " 条，匹配 "
                  ++ (to_locale m.matched
                      ++ (codes " 条"
                          ++ (if m.result_limited
                              then codes "，返回最新 " ++ (to_locale (length s.items) ++ codes " 条")
                              else []))))))
        ∷ (when (ltb 0 m.skipped_invalid_json)
              (text (codes "跳过 " ++ (to_locale m.skipped_invalid_json ++ codes " 条非 JSON 消息")) ∷ [])
            ++ (when m.scan_limited (text (codes "已达到扫描上限") ∷ [])
                ++ when m.result_limited (text (codes "已达到返回上限") ∷ []))))
  ]

  pub record_items : MessageRecord → List (Item Action)
  record_items r =
      status neutral (codes "P" ++ decimal r.partition)
      ∷ text (kind_label (parse_message_value parse stringify r.value))
      ∷ text (local_time r.timestamp)
      ∷ link (codes "Offset " ++ decimal r.offset) (select r)
      ∷ text (if is_empty r.key then codes "无 Key" else r.key)
      ∷ text (preview parse stringify r.value)
      ∷ []

  abbrev list_items : MessagesState → List MessageRecord → List (Item Action)
  list_items s [] = nothing_shown s ∷ []
  list_items s (r ∷ rs) = flat_map record_items (r ∷ rs)

  abbrev headers_items : List Header → List (Item Action)
  headers_items [] = []
  headers_items (h ∷ hs) = text (codes "Headers") ∷ text (show_headers (h ∷ hs)) ∷ []

  pub detail_items : Option MessageRecord → List (Item Action)
  detail_items none = text (codes "从左侧选择一条消息查看内容") ∷ []
  detail_items (some r) =
      text (codes "Partition " ++ decimal r.partition)
      ∷ text (codes "Offset " ++ decimal r.offset)
      ∷ text (local_time r.timestamp)
      ∷ text (codes "Key" ++ (if is_empty r.key then codes "null" else r.key))
      ∷ text (codes "Headers" ++ (decimal (length r.headers) ++ codes " 项"))
      ∷ (viewer r.value ++ headers_items r.headers)

  -- The page: whether it is in a workspace, whether the cluster is read-only, the topic that is
  -- fixed, whether the panel is open, the form that sends a message, and the state.
  pub page_items :
      Bool → Bool → Option Text → Bool → Fields → ProducerState → MessagesState → List (Item Action)
  page_items embedded read_only fixed_topic filters_open fields producer s =
      heading embedded read_only
      ++ (query_items fixed_topic s
          ++ (when filters_open (panel_items show_number s.filters)
              ++ (live_strip s
                  ++ (result_items s
                      ++ (error_items s.error
                          ++ (when s.producer (producer_items fixed_topic fields producer)
                              ++ (list_items s s.items ++ detail_items s.selected)))))))
