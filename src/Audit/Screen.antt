-- ===== src/Audit/Screen.antt =====
-- What web/src/pages/AuditPage.tsx draws. The text of a time in the reader's locale is a parameter.
use kafka_manager.Base.{
  false, Option, none, some, List, [], ◌∷◌, ◌++◌, flat_map, if◌then◌else◌, Text, codes, text_eq,
  length,
}
use kafka_manager.Base.Decimal.{decimal}
use kafka_manager.Markup.{Item, loading, text, status, empty, field, good, bad, error_items, link}
use kafka_manager.Markup.Dialog.{page_header}
use kafka_manager.Audit.{AuditEntry, AuditState, shown}

pub data Action : Type 0 where
  reload : Action
  type_query pick_result : Text → Action

-- `value || fallback`
abbrev or_text : Option Text → Text → Text
or_text none fallback = fallback
or_text (some []) fallback = fallback
or_text (some (c ∷ t)) fallback = c ∷ t

abbrev error_text : Option Text → List (Item Action)
error_text none = []
error_text (some []) = []
error_text (some (c ∷ t)) = text (c ∷ t) ∷ []

module _ (locale_time : Text → Text) (to_lower_case : Text → Text) where
  pub entry_items : AuditEntry → List (Item Action)
  entry_items e =
      text (locale_time e.timestamp)
      ∷ text e.action
      ∷ text
          (or_text e.cluster_id (codes "system") ++ (codes " / " ++ or_text e.resource (codes "-")))
      ∷ (error_text e.error
          ++ ((if text_eq e.result (codes "success")
                then status good (codes "成功")
                else status bad (codes "失败"))
              ∷ []))

  abbrev timeline : List AuditEntry → List (Item Action)
  timeline [] = empty (codes "没有匹配的操作记录") (codes "调整筛选条件，或执行 Kafka 管理操作后再查看。") ∷ []
  timeline (e ∷ es) = flat_map entry_items (e ∷ es)

  pub page_items : AuditState → List (Item Action)
  page_items s =
      page_header (codes "06 / AUDIT") (codes "操作时间线") (codes "按日期目录持久化管理操作，不保存消息正文和认证凭证。")
        (link (codes "刷新日志") reload ∷ [])
      ++ (field (codes "搜索审计日志") s.query false type_query
          ∷ link (codes "全部结果") (pick_result (codes "all"))
          ∷ link (codes "仅成功") (pick_result (codes "success"))
          ∷ link (codes "仅失败") (pick_result (codes "failure"))
          ∷ text (decimal (length (shown to_lower_case s)) ++ codes " 条记录")
          ∷ (error_items s.error
              ++ (if s.loading then loading ∷ [] else timeline (shown to_lower_case s))))
