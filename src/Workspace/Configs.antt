-- ===== src/Workspace/Configs.antt =====
-- `Configs` of web/src/pages/TopicWorkspace.tsx: the configuration of a topic.
-- React clears `currentTarget` of an event once the event is dispatched, so after an `await` it is
-- `null`; `in_dispatch` says whether it still is the form, and `null_error` is the message of the
-- exception that a property of `null` raises. `toLowerCase` is a parameter.
mod Secrets
use kafka_manager.Base.{
  ℕ, Bool, true, false, Option, none, some, List, [], ◌∷◌, if◌then◌else◌, Text, codes, is_empty,
  filter,
}
use kafka_manager.Base.Search.{trim, includes}
use kafka_manager.Feedback.{Provider, notify_success}

pub record TopicConfig : Type 0 where
  pub name : Text
  pub value : Option Text
  pub is_sensitive : Bool
  pub source : Text

pub record ConfigsState : Type 0 where
  pub items : List TopicConfig
  pub error : Text
  pub query : Text
  pub feedback : Provider

pub start : Provider → ConfigsState
start feedback = record { items = []; error = []; query = []; feedback = feedback }

-- The answer to the request for the configuration; `failed` is the message of the exception.
pub data ConfigsAnswer : Type 0 where
  failed : Text → ConfigsAnswer
  listed : List TopicConfig → ConfigsAnswer

pub load_answered : ConfigsAnswer → ConfigsState → ConfigsState
load_answered (failed message) s = record s { error = message }
load_answered (listed items) s = record s { items = items; error = [] }

-- A change that is sent: the entry, and its value, where `null` restores the default.
pub record ConfigChange : Type 0 where
  pub name : Text
  pub value : Option Text

-- `alter` up to its `await`, from the fields of the form.
pub alter : Text → Text → Option ConfigChange
alter name raw =
    if is_empty (trim name)
    then none
    else some (record { name = trim name; value = if is_empty raw then none else some raw })

-- `alter` after its `await`, with whether the configuration is loaded again.
pub alter_answered : Text → Bool → ℕ → Text → Option Text → ConfigsState → ConfigsState × Bool
alter_answered null_error in_dispatch now name (some message) s =
    (record s { error = message }, false)
alter_answered null_error false now name none s = (record s { error = null_error }, false)
alter_answered null_error true now name none s =
    (record s { feedback = notify_success now (codes "Topic 配置已更新") name s.feedback }, true)

pub set_query : Text → ConfigsState → ConfigsState
set_query value s = record s { query = value }

module _ (to_lower_case : Text → Text) where
  pub shown : ConfigsState → List TopicConfig
  shown s = filter (λ c. includes (to_lower_case c.name) (to_lower_case s.query)) s.items

-- What the list shows as the value of an entry.
pub shown_value : TopicConfig → Text
shown_value c =
    if c.is_sensitive then codes "••••••" else elim c.value [ none ↦ codes "默认" | some v ↦ v ]
