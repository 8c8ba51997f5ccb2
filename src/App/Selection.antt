-- ===== src/App/Selection.antt =====
-- The topic of the address in web/src/App.tsx: the effect that loads it, its answers, and the
-- selection of web/src/pages/topic-selection.ts.
use kafka_manager.Base.{
  ℕ, ◌+◌, Bool, true, false, not, ◌&&◌, ◌||◌, Option, none, some, List, [], ◌++◌, ◌==◌,
  if◌then◌else◌, Text, codes, is_empty, text_eq, find,
}
use kafka_manager.Types.{Topic}
use kafka_manager.App.{SelectedTopic, AppState, or_empty, cluster_id, is_nil}

-- web/src/pages/topic-selection.ts
unfoldable pub select_exact_topic : List Topic → Text → Option Topic
select_exact_topic items name = find (λ item. text_eq item.name name) items

-- The answer to the request for topics; `error` is the message of an exception.
pub data TopicAnswer : Type 0 where
  listed : List Topic → TopicAnswer
  error : Text → TopicAnswer

pub data TopicResult : Type 0 where
  found : Topic → TopicResult
  missing : Text → TopicResult

-- `loadTopic` after its `await`: the topic, or the message of the exception.
unfoldable pub load_topic : Text → TopicAnswer → TopicResult
load_topic name (error message) = missing message
load_topic name (listed items) = elim (select_exact_topic items name) [
  | some item ↦ found item
  | none ↦ missing (codes "找不到 Topic：" ++ name)
]

abbrev pub is_topic : Text → Text → SelectedTopic → Bool
is_topic id name t = text_eq t.cluster_id id && text_eq t.item.name name

abbrev pub is_selected : Text → Text → Option SelectedTopic → Bool
is_selected id name none = false
is_selected id name (some t) = is_topic id name t

abbrev is_authenticated : Option Bool → Bool
is_authenticated (some b) = b
is_authenticated none = false

-- What a run of the effect asks the server for: the topic `name` of the cluster `id`.
pub record TopicRequest : Type 0 where
  pub generation : ℕ
  pub id : Text
  pub name : Text

-- The part of the effect for a topic in the address.
unfoldable pub load_effect : Text → Text → AppState → AppState × Option TopicRequest
load_effect id name s = if is_selected id name s.selected_topic then (s, none) else (
  record s { topic_loading = true; topic_error = [] },
  some (record { generation = s.generation; id = id; name = name }),
)

-- The effect with its tests and values as arguments.
unfoldable pub run_effect : Bool → Text → Text → AppState → AppState × Option TopicRequest
run_effect ready id name s =
    if not ready
    then (s, none)
    else if is_empty name || is_empty id
    then (record s { selected_topic = none; topic_error = []; topic_loading = false }, none)
    else load_effect id name s

-- A reader is logged in and there are clusters.
abbrev pub is_ready : AppState → Bool
is_ready s = is_authenticated s.authenticated && not (is_nil s.clusters)

-- The effect that loads the topic of the address, after the clean-up of its run before.
unfoldable pub topic_effect : AppState → AppState × Option TopicRequest
topic_effect s =
    run_effect (is_ready s) (cluster_id s) (or_empty s.route.topic_name)
      (record s { generation = s.generation + 1 })

abbrev pub take_result : TopicRequest → TopicResult → AppState → AppState
take_result r (found item) s = record s {
  selected_topic = some (record { cluster_id = r.id; item = item });
  topic_loading = false;
}
take_result r (missing message) s = record s { topic_error = message; topic_loading = false }

-- The answer to the request of a run of the effect; the whole chain of callbacks, which React
-- renders once. An answer to a run that was cleaned up changes nothing.
unfoldable pub topic_answered : TopicRequest → TopicAnswer → AppState → AppState
topic_answered r answer s =
    if r.generation == s.generation then take_result r (load_topic r.name answer) s else s

-- `refreshTopic` after its `await`, for the cluster and the name that it was called with.
unfoldable pub refresh_answered : Text → Text → TopicAnswer → AppState → AppState
refresh_answered id name answer s = elim (load_topic name answer) [
  | found item ↦ record s { selected_topic = some (record { cluster_id = id; item = item }) }
  | missing message ↦ s
]
