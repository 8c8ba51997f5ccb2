-- ===== src/Settings/Screen.antt =====
-- What web/src/pages/SettingsPage.tsx draws. An option of a `select`, and the check box, are buttons.
-- The time and the size of a backup are printed by parameters. The page keeps no text for the field
-- of a password, and the dialog asks for no text, so `type_nothing` never happens.
pub mod Requests
mod Tests
use kafka_manager.Base.{
  ℕ, suc, Bool, false, not, Option, none, some, List, [], ◌∷◌, ◌++◌, flat_map, take, if◌then◌else◌,
  ltb, Text, codes, is_empty,
}
use kafka_manager.Base.Decimal.{decimal}
use kafka_manager.Base.Search.{starts_with}
use kafka_manager.Markup.{Item, loading, error_notice, text, button, field, when, error_items, link}
use kafka_manager.Markup.Dialog.{page_header, confirm_dialog}
use kafka_manager.Settings.{
  KafkaClusterConfig, AppConfig, ConfigBackup, SettingsState, brokers_text,
}

pub data Action : Type 0 where
  save add_cluster close_restore restore : Action
  remove_cluster : ℕ → Action
  type_name type_id type_brokers type_username type_password pick_protocol pick_mechanism :
      ℕ → Text → Action
  set_read_only : ℕ → Bool → Action
  type_interval type_points type_days type_size type_backup_days : Text → Action
  choose_backup : ConfigBackup → Action
  type_nothing : Text → Action

-- `String(n).padStart(2, '0')`
abbrev two_digits : ℕ → Text
two_digits n = if ltb n 10 then b'0' ∷ decimal n else decimal n

abbrev is_read_only : Option Bool → Bool
is_read_only none = false
is_read_only (some b) = b

abbrev or_empty : Option Text → Text
or_empty none = []
or_empty (some t) = t

pub sasl_items : ℕ → KafkaClusterConfig → List (Item Action)
sasl_items index c =
    link (codes "PLAIN") (pick_mechanism index (codes "PLAIN"))
    ∷ link (codes "SCRAM-SHA-256") (pick_mechanism index (codes "SCRAM-SHA-256"))
    ∷ link (codes "SCRAM-SHA-512") (pick_mechanism index (codes "SCRAM-SHA-512"))
    ∷ field (codes "用户名") (or_empty c.security.username) false (type_username index)
    ∷ field (codes "密码") [] false (type_password index)
    ∷ []

-- The card of a cluster.
pub cluster_items : ℕ → KafkaClusterConfig → List (Item Action)
cluster_items index c =
    text (codes "CLUSTER " ++ two_digits (suc index))
    ∷ link (codes "移除") (remove_cluster index)
    ∷ field (codes "显示名称") c.name false (type_name index)
    ∷ field (codes "唯一 ID") c.id false (type_id index)
    ∷ field (codes "Broker 地址（每行一个）") (brokers_text c.brokers) false (type_brokers index)
    ∷ link (codes "只读模式（禁止所有 Kafka 写操作）") (set_read_only index (not (is_read_only c.read_only)))
    ∷ link (codes "PLAINTEXT") (pick_protocol index (codes "PLAINTEXT"))
    ∷ link (codes "SSL") (pick_protocol index (codes "SSL"))
    ∷ link (codes "SASL_PLAINTEXT") (pick_protocol index (codes "SASL_PLAINTEXT"))
    ∷ link (codes "SASL_SSL") (pick_protocol index (codes "SASL_SSL"))
    ∷ when (starts_with c.security.protocol (codes "SASL")) (sasl_items index c)

abbrev cards : ℕ → List KafkaClusterConfig → List (Item Action)
cards index [] = []
cards index (c ∷ cs) = cluster_items index c ++ cards (suc index) cs

pub number_items : AppConfig → List (Item Action)
number_items cfg =
    text (codes "后台监控采样")
    ∷ field (codes "采样间隔（秒）") (decimal cfg.dashboard.sample_interval_seconds) false type_interval
    ∷ field (codes "内存历史点数") (decimal cfg.dashboard.history_points) false type_points
    ∷ text (codes "本地数据保留策略")
    ∷ field (codes "审计保留天数") (decimal cfg.audit.retention_days) false type_days
    ∷ field (codes "审计单文件上限 (MB)") (decimal cfg.audit.max_file_size_mb) false type_size
    ∷ field (codes "配置备份保留天数") (decimal cfg.audit.config_backup_retention_days) false
        type_backup_days
    ∷ []

abbrev heading : Bool → List (Item Action)
heading saving =
    page_header (codes "05 / CONFIG") (codes "集群配置") (codes "保存前会连接所有 Broker；失败时保留当前有效配置和客户端。")
      (button (if saving then codes "验证连接中…" else codes "保存并热加载") saving none save ∷ [])

module _ (local_time : Text → Text) (size_text : ℕ → Text) where
  pub backup_items : ConfigBackup → List (Item Action)
  backup_items b =
      text b.id
      ∷ text (local_time b.created_at ++ (codes " · " ++ (size_text b.size ++ codes " KB")))
      ∷ link (codes "回滚") (choose_backup b)
      ∷ []

  abbrev backups_items : List ConfigBackup → List (Item Action)
  backups_items [] = []
  backups_items (b ∷ bs) = text (codes "配置备份") ∷ flat_map backup_items (take 10 (b ∷ bs))

  abbrev restore_dialog : SettingsState → Option ConfigBackup → List (Item Action)
  restore_dialog s none = []
  restore_dialog s (some b) =
      confirm_dialog (codes "回滚配置")
        (text (codes "将当前配置替换为备份 " ++ (b.id ++ codes "。"))
          ∷ text (codes "系统会重新验证 Kafka 连接并热加载；当前配置会先自动备份。")
          ∷ [])
        (codes "确认回滚配置") none [] s.restoring s.error type_nothing close_restore restore

  abbrev before : Text → List (Item Action)
  before error =
      page_header (codes "05 / CONFIG") (codes "集群配置") (codes "配置写入 YAML，并在连接验证成功后热加载。") []
      ++ (if is_empty error then loading else error_notice error) ∷ []

  abbrev form_items : AppConfig → SettingsState → List (Item Action)
  form_items cfg s =
      error_items s.error
      ++ (cards 0 cfg.clusters
          ++ (text (codes "支持无认证、SASL 与 TLS")
              ∷ link (codes "新增 Kafka 集群") add_cluster
              ∷ (number_items cfg ++ backups_items s.backups)))

  pub page_items : SettingsState → List (Item Action)
  page_items s = elim s.cfg [
    | none ↦ before s.error
    | some cfg ↦ heading s.saving ++ (form_items cfg s ++ restore_dialog s s.restore_target)
  ]
