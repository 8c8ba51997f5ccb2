-- ===== src/Settings/Tests.antt =====
-- The theorems on the configuration at concrete clusters.
use kafka_manager.Settings.Fields.{set_name, set_sample_interval}
use kafka_manager.Settings.Fields.Server.{
  FieldEdit, sample_interval, field_step, field_run, save-field_run-server,
}
use kafka_manager.Settings.{AppConfig, SettingsState, save, update, update_at}
use kafka_manager.Base.{◌≡◌, refl, false, none, some, List, [], ◌∷◌, Text, codes}
use kafka_manager.Settings.{KafkaClusterConfig}

abbrev two_brokers : List Text
two_brokers = codes "kafka-1:9092" ∷ codes "kafka-2:9092" ∷ []

abbrev cluster : Text → KafkaClusterConfig
cluster id = record {
  id = id;
  name = id;
  brokers = two_brokers;
  is_enabled = none;
  read_only = some false;
  security = record {
    protocol = codes "PLAINTEXT";
    mechanism = none;
    username = none;
    password = none;
    tls = none;
  };
}

abbrev settings : AppConfig
settings = record {
  server = record {
    listen_address = codes ":8080";
    username = codes "admin";
    password = none;
    password_hash = some (codes "hash");
    session_hours = 12;
  };
  audit = record {
    is_enabled = none;
    directory = codes "audit";
    retention_days = 30;
    max_file_size_mb = 20;
    config_backup_retention_days = 30;
  };
  dashboard = record { sample_interval_seconds = 15; history_points = 120 };
  clusters = cluster (codes "dev") ∷ [];
}

abbrev form : SettingsState
form = record {
  cfg = some settings;
  backups = [];
  error = [];
  saving = false;
  restore_target = none;
  restoring = false;
  feedback = record { items = []; serial = 0 };
}

abbrev field_edits : List FieldEdit
field_edits = FieldEdit.cluster 0 (set_name (codes "Production")) ∷ sample_interval 5 ∷ []

abbrev sent_settings : AppConfig
sent_settings = record settings {
  dashboard = record { sample_interval_seconds = 5; history_points = 120 };
  clusters = set_name (codes "Production") (cluster (codes "dev")) ∷ [];
}

sent : (save (field_run form field_edits)).1 ≡ some sent_settings
unfolding save field_run field_step update update_at set_sample_interval
sent = refl

save-field_run-server_example : sent_settings.server ≡ settings.server
save-field_run-server_example =
    save-field_run-server form settings sent_settings field_edits refl sent
