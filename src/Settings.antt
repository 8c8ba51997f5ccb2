-- ===== src/Settings.antt =====
-- web/src/pages/SettingsPage.tsx: the configuration of the clusters. An `await` splits a handler in
-- two; a handler that sends a request returns what it sends. The numbers of the configuration are
-- whole, as the server decodes them.
pub mod Fields
pub mod Brokers
pub mod Editing
pub mod Screen
mod Tests
use kafka_manager.Base.{
  ℕ, zero, suc, Bool, true, false, not, Option, none, some, List, [], ◌∷◌, ◌++◌, if◌then◌else◌,
  Text, codes, is_empty, filter, length,
}
use kafka_manager.Base.Decimal.{decimal}
use kafka_manager.Confirm.{enabled}
use kafka_manager.Feedback.{Provider, notify_success, notify_error}
use kafka_manager.Navigation.Routes.{split}

pub record Security : Type 0 where
  pub protocol : Text
  pub mechanism : Option Text
  pub username : Option Text
  pub password : Option Text
  pub tls : Option Bool

pub record KafkaClusterConfig : Type 0 where
  pub id : Text
  pub name : Text
  pub brokers : List Text
  pub is_enabled : Option Bool
  pub read_only : Option Bool
  pub security : Security

pub record ServerConfig : Type 0 where
  pub listen_address : Text
  pub username : Text
  pub password : Option Text
  pub password_hash : Option Text
  pub session_hours : ℕ

pub record AuditConfig : Type 0 where
  pub is_enabled : Option Bool
  pub directory : Text
  pub retention_days : ℕ
  pub max_file_size_mb : ℕ
  pub config_backup_retention_days : ℕ

pub record DashboardConfig : Type 0 where
  pub sample_interval_seconds : ℕ
  pub history_points : ℕ

pub record AppConfig : Type 0 where
  pub server : ServerConfig
  pub audit : AuditConfig
  pub dashboard : DashboardConfig
  pub clusters : List KafkaClusterConfig

pub record ConfigBackup : Type 0 where
  pub id : Text
  pub created_at : Text
  pub size : ℕ

pub record SettingsState : Type 0 where
  pub cfg : Option AppConfig
  pub backups : List ConfigBackup
  pub error : Text
  pub saving : Bool
  pub restore_target : Option ConfigBackup
  pub restoring : Bool
  pub feedback : Provider

pub blank : KafkaClusterConfig
blank = record {
  id = [];
  name = [];
  brokers = [] ∷ [];
  is_enabled = none;
  read_only = some false;
  security = record {
    protocol = codes "PLAINTEXT";
    mechanism = none;
    username = none;
    password = none;
    tls = none;
  };
}

-- What the text area shows, and what is read from it.
pub brokers_text : List Text → Text
brokers_text [] = []
brokers_text (b ∷ []) = b
brokers_text (b ∷ c ∷ bs) = b ++ 10 ∷ brokers_text (c ∷ bs)

pub read_brokers : Text → List Text
read_brokers t = filter (λ b. not (is_empty b)) (split 10 t)

pub update_at :
    ℕ
    → (KafkaClusterConfig → KafkaClusterConfig)
    → List KafkaClusterConfig
    → List KafkaClusterConfig
update_at i patch [] = []
update_at zero patch (c ∷ cs) = patch c ∷ cs
update_at (suc i) patch (c ∷ cs) = c ∷ update_at i patch cs

pub remove_at : ℕ → List KafkaClusterConfig → List KafkaClusterConfig
remove_at i [] = []
remove_at zero (c ∷ cs) = cs
remove_at (suc i) (c ∷ cs) = c ∷ remove_at i cs

abbrev edit : (List KafkaClusterConfig → List KafkaClusterConfig) → AppConfig → AppConfig
edit f cfg = record cfg { clusters = f cfg.clusters }

-- The handlers of the form, which is shown once the configuration is loaded.
abbrev on_cfg : (AppConfig → AppConfig) → SettingsState → SettingsState
on_cfg f s = elim s.cfg [ none ↦ s | some cfg ↦ record s { cfg = some (f cfg) } ]

pub update : ℕ → (KafkaClusterConfig → KafkaClusterConfig) → SettingsState → SettingsState
update index patch s = on_cfg (edit (update_at index patch)) s

pub remove_cluster : ℕ → SettingsState → SettingsState
remove_cluster index s = on_cfg (edit (remove_at index)) s

pub add_cluster : SettingsState → SettingsState
add_cluster s = on_cfg (edit (λ cs. cs ++ blank ∷ [])) s

-- The callbacks of `load`; `none` is any exception.
pub config_answered : Option AppConfig → Text → SettingsState → SettingsState
config_answered (some value) message s = record s { cfg = some value; error = [] }
config_answered none message s = record s { error = message }

pub backups_answered : Option (List ConfigBackup) → SettingsState → SettingsState
backups_answered (some items) s = record s { backups = items }
backups_answered none s = s

-- `save` up to its `await`. The button is disabled while a request is pending.
pub save : SettingsState → SettingsState × Option AppConfig
save s = elim s.cfg [
  | none ↦ (s, none)
  | some cfg ↦ if s.saving then (s, none) else (record s { saving = true; error = [] }, some cfg)
]

-- `save` after its `await`, for the configuration sent; a failure carries the message.
pub save_answered : ℕ → AppConfig → Option Text → SettingsState → SettingsState
save_answered now sent none s = record s {
  feedback =
      notify_success now (codes "配置已保存并热加载")
        (decimal (length sent.clusters) ++ codes " 个 Kafka 集群连接验证通过") s.feedback;
  saving = false;
}
save_answered now sent (some message) s = record s {
  error = message;
  feedback = notify_error now (codes "配置保存失败") message s.feedback;
  saving = false;
}

-- The button of a backup, which opens the dialog.
pub choose_backup : ConfigBackup → SettingsState → SettingsState
choose_backup backup s = record s { error = []; restore_target = some backup }

-- The ways to close the dialog are disabled while the request is pending.
pub close_restore : SettingsState → SettingsState
close_restore s = if s.restoring then s else record s { restore_target = none; error = [] }

-- The dialog's `submit`, which asks for no text here, and `restore` up to its `await`.
pub restore : SettingsState → SettingsState × Option ConfigBackup
restore s = elim s.restore_target [
  | none ↦ (s, none)
  | some backup ↦
      if enabled [] none s.restoring
      then (record s { restoring = true; error = [] }, some backup)
      else (s, none)
]

-- `restore` after its `await`, for the backup that was sent.
pub restore_answered : ℕ → ConfigBackup → Option Text → SettingsState → SettingsState
restore_answered now sent none s = record s {
  feedback = notify_success now (codes "配置已回滚") sent.id s.feedback;
  restore_target = none;
  restoring = false;
}
restore_answered now sent (some message) s = record s {
  error = message;
  feedback = notify_error now (codes "配置回滚失败") message s.feedback;
  restoring = false;
}
