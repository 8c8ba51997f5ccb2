-- ===== src/Settings/Screen/Requests.antt =====
-- When the page of the settings offers to save the configuration and to restore a backup.
use kafka_manager.Base.{
  ℕ, suc, ◌≡◌, ◌↔◌, inl, inr, Bool, true, false, Bool-cases, Option, none, some, Option-cases, List,
  [], ◌∷◌, ◌++◌, take, arith, Text, codes, is_empty,
}
use kafka_manager.Base.Search.{starts_with}
use kafka_manager.Confirm.{enabled, confirmation_matches}
use kafka_manager.Markup.{
  Item, Offered, Offered-append, Offered-error_items, AllowsAll, AllowsAll-append, AllowsAll-when,
  AllowsAll-flat_map, AllowsAll-error_items, allowed, error_items,
}
use kafka_manager.Markup.Dialog.{page_header, dialog, confirm_dialog, confirm_buttons}
use kafka_manager.Settings.{KafkaClusterConfig, AppConfig, ConfigBackup, SettingsState}
use kafka_manager.Settings.Screen.{
  Action, save, restore, close_restore, cluster_items, sasl_items, cards, number_items,
  backup_items, backups_items, heading, form_items, restore_dialog, page_items,
}

abbrev pub is_some {ℓ} : {A : Type ℓ} → Option A → Bool
is_some none = false
is_some (some a) = true

-- An action that sends no request.
abbrev IsQuiet : Action → Type 0
IsQuiet save = ⊥
IsQuiet restore = ⊥
IsQuiet _ = Unit

abbrev AreQuiet : List (Item Action) → Type 0
AreQuiet items = AllowsAll IsQuiet items

cluster_items-AreQuiet : (index : ℕ) (c : KafkaClusterConfig) → AreQuiet (cluster_items index c)
unfolding cluster_items sasl_items
cluster_items-AreQuiet index c =
    let sasl =
      AllowsAll-when IsQuiet (starts_with c.security.protocol (codes "SASL")) (sasl_items index c)
        (λ e. ground arith) in
    ground (arith, sasl)

cards-AreQuiet : (index : ℕ) (cs : List KafkaClusterConfig) → AreQuiet (cards index cs)
cards-AreQuiet index [] = tt
cards-AreQuiet index (c ∷ cs) =
    AllowsAll-append IsQuiet (cluster_items index c) (cards (suc index) cs)
      (cluster_items-AreQuiet index c) (cards-AreQuiet (suc index) cs)

module _ (local_time : Text → Text) (size_text : ℕ → Text) where
  backups_items-AreQuiet :
      (bs : List ConfigBackup) → AreQuiet (backups_items local_time size_text bs)
  unfolding backup_items
  backups_items-AreQuiet [] = tt
  backups_items-AreQuiet (b ∷ bs) = (
    tt,
    AllowsAll-flat_map IsQuiet (backup_items local_time size_text) (λ c. ground arith)
        (take 10 (b ∷ bs)),
  )

  form_items-AreQuiet :
      (cfg : AppConfig) (s : SettingsState) → AreQuiet (form_items local_time size_text cfg s)
  unfolding number_items
  form_items-AreQuiet cfg s =
      AllowsAll-append IsQuiet (error_items s.error) _ (AllowsAll-error_items IsQuiet s.error) (
        AllowsAll-append IsQuiet (cards 0 cfg.clusters) _ (cards-AreQuiet 0 cfg.clusters) (
          tt,
          (
            λ e. tt,
            AllowsAll-append IsQuiet (number_items cfg) _ (ground arith)
                (backups_items-AreQuiet s.backups),
          ),
        ))

  abbrev buttons : SettingsState → List (Item Action)
  buttons s =
      confirm_buttons (codes "确认回滚配置") s.restoring (enabled [] none s.restoring) close_restore
        restore

  restore_dialog-offers_iff :
      (s : SettingsState) (o : Option ConfigBackup)
      → ¬ Offered save (restore_dialog local_time size_text s o)
        × (Offered restore (restore_dialog local_time size_text s o)
            ↔ ((is_some o ≡ true) × (s.restoring ≡ false)))
  unfolding confirm_dialog dialog enabled confirmation_matches
  restore_dialog-offers_iff s none = ground arith
  restore_dialog-offers_iff s (some b) = ground (
    arith,
    Offered-append save (error_items s.error) (buttons s),
    Offered-append restore (error_items s.error) (buttons s),
    Offered-error_items save s.error,
    Offered-error_items restore s.error,
  )

  silent :
      (cfg : AppConfig) (s : SettingsState)
      → (¬ Offered save (form_items local_time size_text cfg s))
        × (¬ Offered restore (form_items local_time size_text cfg s))
  silent cfg s = (
    λ o. allowed IsQuiet (form_items local_time size_text cfg s) (form_items-AreQuiet cfg s) o,
    λ o. allowed IsQuiet (form_items local_time size_text cfg s) (form_items-AreQuiet cfg s) o,
  )

  loaded_items-offers_iff :
      (cfg : AppConfig) (s : SettingsState)
      → let items =
          heading s.saving
          ++ (form_items local_time size_text cfg s
              ++ restore_dialog local_time size_text s s.restore_target) in
        (Offered save items ↔ (s.saving ≡ false))
        × (Offered restore items ↔ ((is_some s.restore_target ≡ true) × (s.restoring ≡ false)))
  unfolding page_header
  loaded_items-offers_iff cfg s =
      let form = form_items local_time size_text cfg s in
      let confirmation = restore_dialog local_time size_text s s.restore_target in
      let (dialog-save, dialog-restore) = restore_dialog-offers_iff s s.restore_target in
      let (no-save, no-restore) = silent cfg s in
      (
        elim (Bool-cases s.saving) [
          | inl e ↦
              rw e (ground (arith, Offered-append save form confirmation, dialog-save, no-save))
          | inr e ↦
              rw e (ground (arith, Offered-append save form confirmation, dialog-save, no-save))
        ],
        elim (Bool-cases s.saving) [
          | inl e ↦
              rw e (
                ground
                  (arith, Offered-append restore form confirmation, dialog-restore, no-restore))
          | inr e ↦
              rw e (
                ground
                  (arith, Offered-append restore form confirmation, dialog-restore, no-restore))
        ],
      )

  -- The page offers to save exactly if the configuration is loaded and no saving is pending. It offers
  -- to confirm that a backup is restored exactly if the configuration is loaded, the dialog is
  -- open for one, and no restoring is pending.
  pub page_items-requests_iff :
      (s : SettingsState)
      → let items = page_items local_time size_text s in
        (Offered save items ↔ ((is_some s.cfg ≡ true) × (s.saving ≡ false)))
        × (Offered restore items
            ↔ ((is_some s.cfg ≡ true) × (is_some s.restore_target ≡ true) × (s.restoring ≡ false)))
  unfolding page_items page_header
  page_items-requests_iff s = elim (Option-cases s.cfg) [
    | inl e ↦ rw e (elim (Bool-cases (is_empty s.error)) [
      | inl f ↦ rw f (ground arith)
      | inr f ↦ rw f (ground arith)
    ])
    | inr (cfg, e) ↦ rw e (ground (arith, loaded_items-offers_iff cfg s))
  ]
