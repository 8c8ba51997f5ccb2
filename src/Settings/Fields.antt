-- ===== src/Settings/Fields.antt =====
-- The fields of web/src/pages/SettingsPage.tsx. A number input gives a natural number here, 0 if it
-- is empty: signs and fractions are not modelled.
pub mod Server
use kafka_manager.Base.{ℕ, ◌≡◌, refl, ap, ◌∙◌, Bool, Option, none, some, List, [], ◌∷◌, Text}
use mathlib.Core.Option
use kafka_manager.Settings.{
  KafkaClusterConfig, Security, ServerConfig, AppConfig, SettingsState, read_brokers, update,
  add_cluster, remove_cluster,
}

pub set_name : Text → KafkaClusterConfig → KafkaClusterConfig
set_name value c = record c { name = value }

pub set_id : Text → KafkaClusterConfig → KafkaClusterConfig
set_id value c = record c { id = value }

pub set_brokers : Text → KafkaClusterConfig → KafkaClusterConfig
set_brokers value c = record c { brokers = read_brokers value }

pub set_read_only : Bool → KafkaClusterConfig → KafkaClusterConfig
set_read_only value c = record c { read_only = some value }

pub set_protocol : Text → KafkaClusterConfig → KafkaClusterConfig
set_protocol value c = record c { security = record (c.security) { protocol = value } }

pub set_mechanism : Text → KafkaClusterConfig → KafkaClusterConfig
set_mechanism value c = record c { security = record (c.security) { mechanism = some value } }

pub set_username : Text → KafkaClusterConfig → KafkaClusterConfig
set_username value c = record c { security = record (c.security) { username = some value } }

pub set_password : Text → KafkaClusterConfig → KafkaClusterConfig
set_password value c = record c { security = record (c.security) { password = some value } }

abbrev with_config : (AppConfig → AppConfig) → SettingsState → SettingsState
with_config f s = record s { cfg = Option.map f s.cfg }

unfoldable pub set_sample_interval : ℕ → SettingsState → SettingsState
set_sample_interval n =
    with_config (λ c. record c { dashboard = record (c.dashboard) { sample_interval_seconds = n } })

pub set_history_points : ℕ → SettingsState → SettingsState
set_history_points n =
    with_config (λ c. record c { dashboard = record (c.dashboard) { history_points = n } })

pub set_retention_days : ℕ → SettingsState → SettingsState
set_retention_days n =
    with_config (λ c. record c { audit = record (c.audit) { retention_days = n } })

pub set_max_file_size : ℕ → SettingsState → SettingsState
set_max_file_size n =
    with_config (λ c. record c { audit = record (c.audit) { max_file_size_mb = n } })

pub set_backup_retention_days : ℕ → SettingsState → SettingsState
set_backup_retention_days n =
    with_config (λ c. record c { audit = record (c.audit) { config_backup_retention_days = n } })
