-- ===== src/Topics.antt =====
-- web/src/pages/TopicsPage.tsx: the list of topics, and the dialog that creates one. An `await`
-- splits a handler in two; a handler that sends a request returns what it sends. `useDeferredValue`
-- gives the effect the text that was typed, once the browser has the time for it.
pub mod Screen
pub mod Request
mod Tests
use mathlib.Core.Option
use kafka_manager.Base.{
  ℕ, Bool, true, false, not, ◌&&◌, Option, none, some, List, [], ◌∷◌, ◌++◌, if◌then◌else◌, Text,
  codes, is_empty,
}
use kafka_manager.Types.{Topic}
use kafka_manager.Uri.{encode_uri_component}
use kafka_manager.Feedback.{Provider, notify_success, notify_error}

pub record TopicsState : Type 0 where
  pub items : List Topic
  pub query : Text
  pub loading : Bool
  pub error : Text
  pub creating : Bool
  pub feedback : Provider

pub start : Provider → TopicsState
start feedback = record {
  items = [];
  query = [];
  loading = true;
  error = [];
  creating = false;
  feedback = feedback;
}

-- The answer to a request for topics; `failed` is the message of the exception.
pub data TopicsAnswer : Type 0 where
  failed : Text → TopicsAnswer
  listed : List Topic → TopicsAnswer

-- The path of the request for the cluster `id` and the deferred text of the search, unless
-- `encodeURIComponent` throws.
pub topics_path : Text → Text → Option Text
topics_path id deferred =
    Option.map
      (λ encoded.
        codes "/api/v1/clusters/"
        ++ (id ++ (codes "/topics?search=" ++ (encoded ++ codes "&pageSize=200"))))
      (encode_uri_component deferred)

-- `load`, with the path that is asked for. It sets the state before it builds the path.
unfoldable pub load : Text → Text → TopicsState → TopicsState × Option Text
load id deferred s =
    if is_empty id then (s, none) else (record s { loading = true }, topics_path id deferred)

-- The callbacks of `load`.
unfoldable pub load_answered : TopicsAnswer → TopicsState → TopicsState
load_answered (failed message) s = record s { error = message; loading = false }
load_answered (listed items) s = record s { items = items; error = []; loading = false }

-- `copyName` after its `await`; `none` is the message of any exception but an `Error`.
pub copied : ℕ → Text → Option (Option Text) → TopicsState → TopicsState
copied now name none s = record s {
  feedback = notify_success now (codes "Topic 名称已复制") name s.feedback;
}
copied now name (some message) s = record s {
  feedback =
      notify_error now (codes "复制失败") (elim message [ none ↦ codes "请手动选择 Topic 名称" | some m ↦ m ])
        s.feedback;
}

pub open_create : Bool → TopicsState → TopicsState
open_create read_only s = if read_only then s else record s { creating = true }

pub close_create : TopicsState → TopicsState
close_create s = record s { creating = false }

-- The state of the dialog, and the fields of its form; numbers are kept as `String` prints them.
pub record CreateState : Type 0 where
  pub error : Text
  pub submitting : Bool

pub record NewTopic : Type 0 where
  pub name : Text
  pub partitions : Text
  pub replication_factor : Text

-- `submit` up to its `await`; the button is disabled while a request is pending.
pub submit : NewTopic → CreateState → CreateState × Option NewTopic
submit topic s =
    if s.submitting then (s, none) else (record s { submitting = true; error = [] }, some topic)

-- `submit` after its `await`, with the name that the page is told of.
pub submit_answered : Text → Option Text → CreateState → CreateState × Option Text
submit_answered name none s = (record s { submitting = false }, some name)
submit_answered name (some message) s = (record s { error = message; submitting = false }, none)

-- `saved`: the dialog is closed, and the list is loaded again.
pub saved : ℕ → Text → Text → Text → TopicsState → TopicsState × Option Text
saved now id deferred name s = load id deferred (record s {
  creating = false;
  feedback = notify_success now (codes "Topic 创建成功") name s.feedback;
})

pub set_query : Text → TopicsState → TopicsState
set_query value s = record s { query = value }
