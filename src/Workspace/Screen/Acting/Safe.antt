-- ===== src/Workspace/Screen/Acting/Safe.antt =====
-- On a read-only cluster, the page of a topic writes nothing.
use kafka_manager.Base.{
  text_eq, Bool-cases, inl, inr, ◌==◌, refl, true, Bool-cases, text_eq, inl, inr, none, some, arith,
  Text, All, ◌==◌,
}
use kafka_manager.Types.{Topic}
use kafka_manager.Feedback.{Provider}
use kafka_manager.Markup.{Offered, allowed}
use kafka_manager.Navigation.Routes.{tab_name, TopicTab, overview, partitions, config}
use kafka_manager.Workspace.{
  not_expanded, not_refreshed, done, start, open_delete, type_confirmation, close_delete,
  submit_delete, remove_answered, start_refresh, refresh_answered, add_answered,
}
use kafka_manager.Workspace.Screen.{
  Panel, Action, press_delete, choose_tab, toggle_adding, add, apply_config, Request, remove,
  expand, change, Page, mounted, opened, page_items,
}
use kafka_manager.Workspace.Screen.Acting.{
  mount_requests, with_feedback, panel_act, act, Answer, removed, refreshed, to_panel, added,
  listed, changed, panel_answer, PanelAnswer, answer,
}
use kafka_manager.Workspace.Screen.Quiet.{IsQuiet, IsShut, IsClosed, page_items-Quiet}

abbrev pub IsHarmless : Request → Type 0
IsHarmless remove = ⊥
IsHarmless (expand count) = ⊥
IsHarmless (change c) = ⊥
IsHarmless _ = Unit

mounted-IsShut : (f : Provider) (tab : TopicTab) → IsShut (mounted f tab)
unfolding mounted
mounted-IsShut f overview = tt
mounted-IsShut f TopicTab.messages = tt
mounted-IsShut f partitions = refl
mounted-IsShut f config = tt

panel_act-IsShut : (a : Action) (p : Panel) → IsQuiet a → IsShut p → IsShut (panel_act a p).0
unfolding panel_act
panel_act-IsShut toggle_adding p q h = absurd q
panel_act-IsShut a p q h = ground arith

panel_act-IsHarmless : (a : Action) (p : Panel) → IsQuiet a → All IsHarmless (panel_act a p).1
unfolding panel_act
panel_act-IsHarmless add p q = absurd q
panel_act-IsHarmless apply_config p q = absurd q
panel_act-IsHarmless a p q = ground arith

act-IsClosed :
    (name : Text) (a : Action) (p : Page) → IsQuiet a → IsClosed p → IsClosed (act name a p).0
unfolding act open_delete type_confirmation close_delete submit_delete start_refresh
act-IsClosed name press_delete p q h = absurd q
act-IsClosed name toggle_adding p q h = absurd q
act-IsClosed name (choose_tab tab) p q h =
    elim (Bool-cases (text_eq (tab_name tab) (tab_name p.tab))) [
      | inl e ↦ rw e h
      | inr e ↦ rw e (h.0, mounted-IsShut p.state.feedback tab)
    ]
act-IsClosed name a p q h = ground (arith, panel_act-IsShut a p.panel)

mount_requests-IsHarmless : (tab : TopicTab) → All IsHarmless (mount_requests tab)
mount_requests-IsHarmless overview = tt
mount_requests-IsHarmless TopicTab.messages = tt
mount_requests-IsHarmless partitions = tt
mount_requests-IsHarmless config = (tt, tt)

act-IsHarmless :
    (name : Text) (a : Action) (p : Page) → IsQuiet a → IsClosed p → All IsHarmless (act name a p).1
unfolding act submit_delete start_refresh
act-IsHarmless name toggle_adding p q h = absurd q
act-IsHarmless name (choose_tab tab) p q h =
    elim (Bool-cases (text_eq (tab_name tab) (tab_name p.tab))) [
      | inl e ↦ rw e tt
      | inr e ↦ rw e (mount_requests-IsHarmless tab)
    ]
act-IsHarmless name a p q h = ground (arith, panel_act-IsHarmless a p.panel)

panel_answer-IsShut :
    (name : Text) (a : PanelAnswer) (f : Provider) (p : Panel)
    → IsShut p
    → IsShut (panel_answer name a (with_feedback f p)).0
unfolding panel_answer add_answered
panel_answer-IsShut name (added now count (not_expanded d)) f p h = ground arith
panel_answer-IsShut name (added now count (not_refreshed d)) f p h = ground arith
panel_answer-IsShut name (added now count done) f p h = ground arith
panel_answer-IsShut name (listed c) f p h = ground arith
panel_answer-IsShut name (changed n d now e o) f p h = ground arith

answer-IsClosed : (name : Text) (a : Answer) (p : Page) → IsClosed p → IsClosed (answer name a p).0
unfolding answer remove_answered refresh_answered
answer-IsClosed name (removed now none) p h = ground arith
answer-IsClosed name (removed now (some m)) p h = ground arith
answer-IsClosed name (refreshed now none) p h = ground arith
answer-IsClosed name (refreshed now (some m)) p h = ground arith
answer-IsClosed name (to_panel mount a) p h = elim (Bool-cases (mount == p.mounts)) [
  | inl e ↦ rw e (h.0, panel_answer-IsShut name a p.state.feedback p.panel h.1)
  | inr e ↦ rw e h
]

-- The pages that a reader reaches on a read-only cluster: by the controls that the page offers, and
-- by answers.
module _ (to_lower_case : Text → Text) (topic : Topic) (cluster_id : Text)
    (feedback : Provider) where
  abbrev pub OffersHere : Page → Action → Type 0
  OffersHere p a = Offered a (page_items to_lower_case topic true cluster_id p)

  pub data Reached : Page → Type 0 where
    first : (tab : TopicTab) → Reached (opened feedback tab)
    acted : {p : Page} (a : Action) → Reached p → OffersHere p a → Reached (act topic.name a p).0
    answered : {p : Page} (x : Answer) → Reached p → Reached (answer topic.name x p).0

  offered-IsQuiet : (p : Page) (a : Action) → IsClosed p → OffersHere p a → IsQuiet a
  offered-IsQuiet p a h o =
      allowed IsQuiet (page_items to_lower_case topic true cluster_id p)
        (page_items-Quiet to_lower_case topic cluster_id p h) o

  Reached-IsClosed : {p : Page} → Reached p → IsClosed p
  unfolding start opened
  Reached-IsClosed (first tab) = (refl, mounted-IsShut feedback tab)
  Reached-IsClosed (acted {p} a r o) =
      act-IsClosed topic.name a p (offered-IsQuiet p a (Reached-IsClosed r) o) (Reached-IsClosed r)
  Reached-IsClosed (answered {p} x r) = answer-IsClosed topic.name x p (Reached-IsClosed r)

  -- On a read-only cluster, whatever a reader does with the controls that the page of a topic
  -- offers, its panel of messages aside, and however the server answers: nothing that its controls
  -- ask for writes.
  pub Reached-act-IsHarmless :
      {p : Page} (a : Action) → Reached p → OffersHere p a → All IsHarmless (act topic.name a p).1
  Reached-act-IsHarmless {p} a r o =
      act-IsHarmless topic.name a p (offered-IsQuiet p a (Reached-IsClosed r) o)
        (Reached-IsClosed r)
