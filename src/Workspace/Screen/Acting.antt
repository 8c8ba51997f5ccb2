-- ===== src/Workspace/Screen/Acting.antt =====
-- What the controls of a topic's page do, and what becomes of the answers
-- (web/src/pages/TopicWorkspace.tsx).
pub mod Safe
mod Tests
use kafka_manager.Base.{
  ◌+◌, ℕ, Bool, true, false, not, Option, none, some, List, [], ◌∷◌, if◌then◌else◌, Text, codes,
  text_eq, ◌==◌,
}
use kafka_manager.Feedback.{Provider}
use kafka_manager.Navigation.Routes.{TopicTab, tab_name, partitions, config}
use kafka_manager.Workspace.{
  WorkspaceState, AddOutcome, open_delete, type_confirmation, close_delete, submit_delete,
  remove_answered, start_refresh, refresh_answered, add_answered,
}
use kafka_manager.Workspace.Configs.{ConfigsAnswer, alter, alter_answered, load_answered, set_query}
use kafka_manager.Workspace.Screen.{
  Panel, partitions_panel, config_panel, Action, back, refresh, press_delete, choose_tab, type_name,
  cancel_delete, confirm_delete, toggle_adding, add, type_count, type_query, type_config_name,
  type_config_value, apply_config, Request, leave, reload, list_configs, remove, expand, change,
  Page, mounted,
}

-- What a control of a panel does to it, with what the panel asks for. A count is shown again by the
-- form when it is opened the next time.
pub panel_act : Action → Panel → Panel × List Request
panel_act toggle_adding (partitions_panel s count) =
    (partitions_panel (record s { adding = not s.adding }) (codes "1"), [])
panel_act (type_count value) (partitions_panel s count) = (partitions_panel s value, [])
panel_act add (partitions_panel s count) = (partitions_panel s count, expand count ∷ [])
panel_act (type_query value) (config_panel s name raw) =
    (config_panel (set_query value s) name raw, [])
panel_act (type_config_name value) (config_panel s name raw) = (config_panel s value raw, [])
panel_act (type_config_value value) (config_panel s name raw) = (config_panel s name value, [])
panel_act apply_config (config_panel s name raw) =
    (config_panel s name raw, elim (alter name raw) [ none ↦ [] | some c ↦ change c ∷ [] ])
panel_act _ p = (p, [])

abbrev request_if : Request → Bool → List Request
request_if r true = r ∷ []
request_if r false = []

abbrev pub mount_requests : TopicTab → List Request
mount_requests config = list_configs ∷ []
mount_requests _ = []

-- A tab that is shown already stays as it is.
abbrev with_tab : TopicTab → Page → Page × List Request
with_tab tab p = if text_eq (tab_name tab) (tab_name p.tab) then (p, []) else (
  record p { tab = tab; panel = mounted p.state.feedback tab; mounts = p.mounts + 1 },
  mount_requests tab,
)

-- What a control of the page does, and what it asks for.
pub act : Text → Action → Page → Page × List Request
act name back p = (p, leave ∷ [])
act name refresh p =
    let (s, sends) = start_refresh p.state in (record p { state = s }, request_if reload sends)
act name press_delete p = (record p { state = open_delete p.state }, [])
act name (choose_tab tab) p = with_tab tab p
act name (type_name value) p = (record p { state = type_confirmation value p.state }, [])
act name cancel_delete p = (record p { state = close_delete p.state }, [])
act name confirm_delete p =
    let (s, sends) = submit_delete name p.state in (record p { state = s }, request_if remove sends)
act name a p = let (panel, requests) = panel_act a p.panel in (record p { panel = panel }, requests)

-- An answer that reaches a panel. The refresh within `add` is a part of its outcome.
pub data PanelAnswer : Type 0 where
  added : ℕ → ℕ → AddOutcome → PanelAnswer
  listed : ConfigsAnswer → PanelAnswer
  changed : Text → Bool → ℕ → Text → Option Text → PanelAnswer

abbrev asking_tab : PanelAnswer → TopicTab
asking_tab (added now count outcome) = partitions
asking_tab _ = config

-- The panel after an answer, with whether the configuration is loaded again. `reset` empties the
-- fields of the form, if it is reached.
pub panel_answer : Text → PanelAnswer → Panel → Panel × Bool
panel_answer topic_name (added now count outcome) (partitions_panel s typed) =
    (partitions_panel (add_answered now topic_name count outcome s) typed, false)
panel_answer topic_name (listed configs) (config_panel s name raw) =
    (config_panel (load_answered configs s) name raw, false)
panel_answer topic_name (changed null_error in_dispatch now entry outcome)
      (config_panel s name raw) =
    let (s', again) = alter_answered null_error in_dispatch now entry outcome s in
    (config_panel s' (if again then [] else name) (if again then [] else raw), again)
panel_answer topic_name _ p = (p, false)

-- All components raise notifications with the same provider.
abbrev pub with_feedback : Provider → Panel → Panel
with_feedback feedback (partitions_panel s count) =
    partitions_panel (record s { feedback = feedback }) count
with_feedback feedback (config_panel s name raw) =
    config_panel (record s { feedback = feedback }) name raw
with_feedback feedback p = p

abbrev feedback_of : Provider → Panel → Provider
feedback_of feedback (partitions_panel s count) = s.feedback
feedback_of feedback (config_panel s name raw) = s.feedback
feedback_of feedback _ = feedback

-- An answer to the page's own requests, or to one of the panel of the given mount.
pub data Answer : Type 0 where
  removed refreshed : ℕ → Option Text → Answer
  to_panel : ℕ → PanelAnswer → Answer

abbrev raised : Provider → WorkspaceState → WorkspaceState
raised feedback s = record s { feedback = feedback }

-- If the panel that asked is no longer there, then what the answer does to its state is lost, and
-- what it raises or loads is not.
pub answer : Text → Answer → Page → Page × List Request
answer name (removed now outcome) p =
    let (s, leaves) = remove_answered now name outcome p.state in
    (record p { state = s }, request_if leave leaves)
answer name (refreshed now outcome) p =
    (record p { state = refresh_answered now outcome p.state }, [])
answer name (to_panel mount a) p =
    let feedback = p.state.feedback in
    let lost = panel_answer name a (mounted feedback (asking_tab a)) in
    let kept = panel_answer name a (with_feedback feedback p.panel) in
    if mount == p.mounts
    then (
      record p { state = raised (feedback_of feedback kept.0) p.state; panel = kept.0 },
      request_if list_configs kept.1,
    )
    else (
      record p { state = raised (feedback_of feedback lost.0) p.state },
      request_if list_configs lost.1,
    )
