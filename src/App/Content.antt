-- ===== src/App/Content.antt =====
-- What web/src/App.tsx shows for a state.
use kafka_manager.Base.{not, Option, none, some, if◌then◌else◌, Text, is_empty}
use kafka_manager.Types.{Topic}
use kafka_manager.Navigation.Routes.{Page, TopicTab, overview}
use kafka_manager.App.{SelectedTopic, AppState, or_empty, cluster_id}
use kafka_manager.App.Selection.{is_topic}

-- What the page shows.
pub data View : Type 0 where
  boot login loading blank : View
  route_error : Text → View
  workspace : Topic → TopicTab → View
  page : Page → View

-- The topic of the address, if it is the selected one.
abbrev shown_topic : Text → Text → Option SelectedTopic → Option Topic
shown_topic id name none = none
shown_topic id name (some t) = if is_topic id name t then some t.item else none

abbrev pub or_overview : Option TopicTab → TopicTab
or_overview none = overview
or_overview (some t) = t

abbrev topic_view : Option Topic → TopicTab → View
topic_view none tab = blank
topic_view (some t) tab = workspace t tab

-- The page below the top bar, with the name and the cluster of the address as arguments.
unfoldable pub content_at : Text → Text → AppState → View
content_at id name s =
    if is_empty name
    then page s.route.page
    else if s.topic_loading
    then View.loading
    else if not (is_empty s.topic_error)
    then route_error s.topic_error
    else topic_view (shown_topic id name s.selected_topic) (or_overview s.route.topic_tab)

unfoldable pub content : AppState → View
content s = content_at (cluster_id s) (or_empty s.route.topic_name) s

pub view : AppState → View
view s = elim s.authenticated [ none ↦ boot | some b ↦ if b then content s else login ]
