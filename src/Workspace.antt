-- ===== src/Workspace.antt =====
-- web/src/pages/TopicWorkspace.tsx: a topic's page, which deletes and refreshes the topic, and the
-- form that adds partitions. An `await` splits a handler in two. The dialog's text field, which is
-- empty whenever the dialog opens, is a field of the page's state. A handler that sends a request,
-- or leaves the page, returns that as a Boolean.
pub mod Delete
pub mod Screen
pub mod Configs
mod Tests
use kafka_manager.Base.{
  ℕ, Bool, true, false, not, ◌&&◌, Option, none, some, List, [], ◌++◌, if◌then◌else◌, Text, codes,
}
use kafka_manager.Base.Decimal.{decimal}
use kafka_manager.Confirm.{enabled}
use kafka_manager.Feedback.{Provider, notify_success, notify_error}

pub record WorkspaceState : Type 0 where
  pub error : Text
  pub confirming_delete : Bool
  pub deleting : Bool
  pub refreshing : Bool
  pub typed : Text
  pub feedback : Provider

pub start : Provider → WorkspaceState
start feedback = record {
  error = [];
  confirming_delete = false;
  deleting = false;
  refreshing = false;
  typed = [];
  feedback = feedback;
}

-- What the button does that opens the dialog.
pub open_delete : WorkspaceState → WorkspaceState
open_delete s = record s {
  error = [];
  confirming_delete = true;
  typed = if s.confirming_delete then s.typed else [];
}

pub type_confirmation : Text → WorkspaceState → WorkspaceState
type_confirmation value s = if s.confirming_delete then record s { typed = value } else s

-- Every way to close the dialog is disabled while the request is pending.
pub close_delete : WorkspaceState → WorkspaceState
close_delete s =
    if s.confirming_delete && not s.deleting
    then record s { confirming_delete = false; error = [] }
    else s

-- The dialog's `submit`, and `remove` up to its `await`.
pub submit_delete : Text → WorkspaceState → WorkspaceState × Bool
submit_delete name s =
    if s.confirming_delete && enabled s.typed (some name) s.deleting
    then (record s { deleting = true; error = [] }, true)
    else (s, false)

-- `remove` after its `await`; an answer that failed carries the message of the exception.
pub remove_answered : ℕ → Text → Option Text → WorkspaceState → WorkspaceState × Bool
remove_answered now name none s = (
  record s {
    feedback = notify_success now (codes "Topic 已删除") name s.feedback;
    confirming_delete = false;
    deleting = false;
  },
  true,
)
remove_answered now name (some message) s = (
  record s {
    error = message;
    feedback = notify_error now (codes "删除 Topic 失败") message s.feedback;
    deleting = false;
  },
  false,
)

-- The button is disabled while a refresh is pending.
pub start_refresh : WorkspaceState → WorkspaceState × Bool
start_refresh s =
    if s.refreshing then (s, false) else (record s { refreshing = true; error = [] }, true)

pub refresh_answered : ℕ → Option Text → WorkspaceState → WorkspaceState
refresh_answered now none s = record s {
  feedback = notify_success now (codes "Topic 已刷新") (codes "分区、ISR 和复制因子已更新") s.feedback;
  refreshing = false;
}
refresh_answered now (some message) s = record s {
  error = message;
  feedback = notify_error now (codes "刷新 Topic 失败") message s.feedback;
  refreshing = false;
}

pub record PartitionsState : Type 0 where
  pub error : Text
  pub notice : Text
  pub adding : Bool
  pub feedback : Provider

-- What becomes of the two requests of `add`: the expansion, and the refresh after it.
pub data AddOutcome : Type 0 where
  not_expanded not_refreshed : Text → AddOutcome
  done : AddOutcome

-- `add` after its last `await`.
pub add_answered : ℕ → Text → ℕ → AddOutcome → PartitionsState → PartitionsState
add_answered now name count (not_expanded detail) s = record s { error = detail }
add_answered now name count (not_refreshed detail) s = record s {
  error = codes "分区扩容已提交，但刷新元数据失败：" ++ detail;
}
add_answered now name count done s = record s {
  adding = false;
  error = [];
  notice = codes "已新增 " ++ (decimal count ++ codes " 个分区，当前分区列表和 Topic 元数据已刷新。");
  feedback =
      notify_success now (codes "分区扩容完成")
        (name ++ (codes " 新增 " ++ (decimal count ++ codes " 个分区"))) s.feedback;
}
