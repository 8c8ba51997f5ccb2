-- ===== src/Settings/Screen/Tests.antt =====
-- The page with the dialog open that restores a backup.
use kafka_manager.Base.{ℕ, ◌≡◌, ◌↔◌, true, false, none, some, [], ◌∷◌, Text, codes}
use kafka_manager.Markup.{Offered}
use kafka_manager.Settings.{AppConfig, ConfigBackup, SettingsState, blank}
use kafka_manager.Settings.Screen.{save, restore, page_items}
use kafka_manager.Settings.Screen.Requests.{is_some, page_items-requests_iff}

abbrev same : Text → Text
same t = t

abbrev size : ℕ → Text
size n = codes "1.5"

abbrev config : AppConfig
config = record {
  server = record {
    listen_address = codes ":8080";
    username = codes "admin";
    password = none;
    password_hash = none;
    session_hours = 8;
  };
  audit = record {
    is_enabled = none;
    directory = codes "audit";
    retention_days = 30;
    max_file_size_mb = 10;
    config_backup_retention_days = 30;
  };
  dashboard = record { sample_interval_seconds = 15; history_points = 120 };
  clusters = blank ∷ [];
}

abbrev backup : ConfigBackup
backup = record { id = codes "config-1.yaml"; created_at = codes "2024-05-01"; size = 1536 }

abbrev asked : SettingsState
asked = record {
  cfg = some config;
  backups = backup ∷ [];
  error = [];
  saving = true;
  restore_target = some backup;
  restoring = false;
  feedback = record { items = []; serial = 0 };
}

page_items-requests_iff_example :
    (Offered save (page_items same size asked)
      ↔ ((is_some asked.cfg ≡ true) × (asked.saving ≡ false)))
    × (Offered restore (page_items same size asked) ↔ (
        (is_some asked.cfg ≡ true)
        × (is_some asked.restore_target ≡ true)
        × (asked.restoring ≡ false)))
page_items-requests_iff_example = page_items-requests_iff same size asked
