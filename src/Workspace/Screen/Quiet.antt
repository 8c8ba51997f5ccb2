-- ===== src/Workspace/Screen/Quiet.antt =====
-- What the page of a topic offers on a read-only cluster.
use kafka_manager.Base.{
  ℕ, ◌≡◌, true, false, not, Bool-cases, inl, inr, List, [], ◌∷◌, arith, Text, is_empty, take, ◌==◌,
}
use kafka_manager.Types.{Topic, TopicPartition}
use kafka_manager.Markup.{
  Item, Allows, AllowsAll-when, notice, AllowsAll-error_items, AllowsAll, AllowsAll-append,
  AllowsAll-map, AllowsAll-flat_map, when, error_items,
}
use kafka_manager.Workspace.{WorkspaceState}
use kafka_manager.Workspace.Configs.{TopicConfig, shown}
use kafka_manager.Workspace.Screen.{
  Panel, overview_panel, messages_panel, partitions_panel, config_panel, Action, press_delete,
  toggle_adding, add, apply_config, Page, heading, tabs, overview_items, partition_items,
  partitions_items, config_items, configs_items, panel_items, page_items, offline_status,
}

-- What opens the dialog or the form of the panel of partitions, or submits a form of a panel.
abbrev pub IsQuiet : Action → Type 0
IsQuiet press_delete = ⊥
IsQuiet toggle_adding = ⊥
IsQuiet add = ⊥
IsQuiet apply_config = ⊥
IsQuiet _ = Unit

abbrev pub IsShut : Panel → Type 0
IsShut (partitions_panel s count) = s.adding ≡ false
IsShut _ = Unit

-- Neither the dialog nor the form of the panel of partitions is open.
abbrev pub IsClosed : Page → Type 0
IsClosed p = (p.state.confirming_delete ≡ false) × IsShut p.panel

abbrev pub Quiet : List (Item Action) → Type 0
Quiet = AllowsAll IsQuiet

heading-Quiet : (c : Text) (t : Topic) (s : WorkspaceState) → Quiet (heading c t true s)
unfolding heading
heading-Quiet c t s = elim (Bool-cases (t.under_replicated == 0)) [
  | inl e ↦ rw e (ground arith)
  | inr e ↦ rw e (ground arith)
]

partition_items-Quiet : (p : TopicPartition) → Quiet (partition_items p)
unfolding partition_items
partition_items-Quiet p = (tt, (tt, (tt, (tt, (status-Quiet p.offline_replicas, tt)))))
  where
    status-Quiet : (ns : List ℕ) → Allows IsQuiet (offline_status ns)
    status-Quiet [] = tt
    status-Quiet (n ∷ ns) = tt

config_items-Quiet : (c : TopicConfig) → Quiet (config_items c)
unfolding config_items
config_items-Quiet c = (tt, (tt, (tt, tt)))

-- The parts of the page.
module _ (to_lower_case : Text → Text) (t : Topic) where
  panel_items-Quiet : (p : Panel) → IsShut p → Quiet (panel_items to_lower_case t true p)
  unfolding panel_items overview_items partitions_items configs_items
  panel_items-Quiet overview_panel h =
      (tt, (tt, (tt, (tt, ((λ e. tt), AllowsAll-map IsQuiet _ (λ p. tt) (take 12 t.partitions))))))
  panel_items-Quiet messages_panel h = tt
  panel_items-Quiet (partitions_panel s count) h = (
    (λ e. cc),
    AllowsAll-append IsQuiet (when s.adding _) _ (AllowsAll-when IsQuiet s.adding _ (λ e. cc)) (
        AllowsAll-append IsQuiet (when (not (is_empty s.notice)) (notice s.notice ∷ [])) _
          (AllowsAll-when IsQuiet (not (is_empty s.notice)) (notice s.notice ∷ []) (λ e. (tt, tt)))
          (AllowsAll-append IsQuiet (error_items s.error) _ (AllowsAll-error_items IsQuiet s.error)
            (AllowsAll-flat_map IsQuiet _ partition_items-Quiet t.partitions))),
  )
  panel_items-Quiet (config_panel s name raw) h = (
    (λ e v. tt),
    (
      (λ e v. tt),
      (
        (λ e v. tt),
        (
          (λ e. cc),
          AllowsAll-append IsQuiet (error_items s.error) _ (AllowsAll-error_items IsQuiet s.error)
              (AllowsAll-flat_map IsQuiet _ config_items-Quiet (shown to_lower_case s)),
        ),
      ),
    ),
  )

  pub page_items-Quiet :
      (cluster_id : Text) (p : Page)
      → IsClosed p
      → Quiet (page_items to_lower_case t true cluster_id p)
  unfolding page_items tabs
  page_items-Quiet cluster_id p h =
      AllowsAll-append IsQuiet (heading cluster_id t true p.state) _
        (heading-Quiet cluster_id t p.state)
        (
          (λ e. tt),
          (
            (λ e. tt),
            (
              (λ e. tt),
              (
                (λ e. tt),
                (
                  tt,
                  AllowsAll-append IsQuiet (error_items p.state.error) _
                      (AllowsAll-error_items IsQuiet p.state.error)
                      (AllowsAll-append IsQuiet _ _ (panel_items-Quiet p.panel h.1)
                        (AllowsAll-when IsQuiet p.state.confirming_delete _ (λ e. cc))),
                ),
              ),
            ),
          ),
        )
