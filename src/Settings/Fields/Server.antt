-- ===== src/Settings/Fields/Server.antt =====
-- What the page of the configuration leaves alone.
use kafka_manager.Base.{ℕ, ◌≡◌, refl, sym, ◌∙◌, Option, none, some, List, [], ◌∷◌, arith, some_inj}
use kafka_manager.Settings.{
  KafkaClusterConfig, ServerConfig, AppConfig, SettingsState, update, add_cluster, remove_cluster,
  save,
}
use kafka_manager.Settings.Fields.{
  set_sample_interval, set_history_points, set_retention_days, set_max_file_size,
  set_backup_retention_days,
}

-- What a reader does with the configuration: a field of a cluster is changed by a function, and the
-- number fields are given numbers.
pub data FieldEdit : Type 0 where
  cluster : ℕ → (KafkaClusterConfig → KafkaClusterConfig) → FieldEdit
  added : FieldEdit
  removed sample_interval history_points retention_days max_file_size backup_days : ℕ → FieldEdit

unfoldable pub field_step : SettingsState → FieldEdit → SettingsState
field_step s (cluster i patch) = update i patch s
field_step s added = add_cluster s
field_step s (removed i) = remove_cluster i s
field_step s (sample_interval n) = set_sample_interval n s
field_step s (history_points n) = set_history_points n s
field_step s (retention_days n) = set_retention_days n s
field_step s (max_file_size n) = set_max_file_size n s
field_step s (backup_days n) = set_backup_retention_days n s

unfoldable pub field_run : SettingsState → List FieldEdit → SettingsState
field_run s [] = s
field_run s (e ∷ es) = field_run (field_step s e) es

abbrev server_of : SettingsState → Option ServerConfig
server_of s = elim s.cfg [ none ↦ none | some c ↦ some c.server ]

field_step-server : (s : SettingsState) (e : FieldEdit) → server_of (field_step s e) ≡ server_of s
unfolding field_step update add_cluster remove_cluster set_sample_interval set_history_points
    set_retention_days set_max_file_size set_backup_retention_days
field_step-server s (cluster i patch) = ground arith
field_step-server s added = ground arith
field_step-server s (removed i) = ground arith
field_step-server s (sample_interval n) = ground arith
field_step-server s (history_points n) = ground arith
field_step-server s (retention_days n) = ground arith
field_step-server s (max_file_size n) = ground arith
field_step-server s (backup_days n) = ground arith

field_run-server :
    (s : SettingsState) (es : List FieldEdit) → server_of (field_run s es) ≡ server_of s
unfolding field_run
field_run-server s [] = refl
field_run-server s (e ∷ es) = field_run-server (field_step s e) es ∙ field_step-server s e

save-server :
    (s : SettingsState) {sent : AppConfig} → (save s).1 ≡ some sent → server_of s ≡ some sent.server
unfolding save
save-server s e = ground arith

-- Whatever a reader edits: if the configuration is saved, then what is sent has the server's own
-- part, with its account and password, as it was loaded.
pub save-field_run-server :
    (s : SettingsState) (loaded sent : AppConfig) (es : List FieldEdit)
    → s.cfg ≡ some loaded
    → (save (field_run s es)).1 ≡ some sent
    → sent.server ≡ loaded.server
save-field_run-server s loaded sent es e f =
    let before : server_of s ≡ some loaded.server = rw e refl in
    some_inj (sym (save-server (field_run s es) f) ∙ field_run-server s es ∙ before)
