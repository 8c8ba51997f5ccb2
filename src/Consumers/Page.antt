-- ===== src/Consumers/Page.antt =====
-- web/src/pages/ConsumersPage.tsx: the page of consumer groups, and the drawer of a group, which
-- resets its offsets. An `await` splits a handler in two; what a handler sends is a result. The
-- text field of the dialog, which is empty whenever the dialog opens, is a field of the drawer.
pub mod Shown
pub mod Reset
pub mod Screen
pub mod Display
pub mod Labels
use kafka_manager.Base.{
  ℕ, Bool, true, false, not, ◌&&◌, ◌||◌, Option, none, some, List, [], ◌∷◌, ◌++◌, ◌==◌, leb, ltb,
  if◌then◌else◌, Text, codes, is_empty, text_eq, filter, map,
}
use kafka_manager.Base.Int.{ℤ, pos, is_positive, is_zero, ◌-ℤ◌}
use kafka_manager.Base.Decimal.{decimal}
use kafka_manager.Base.Search.{trim, includes}
use kafka_manager.Confirm.{enabled}
use kafka_manager.Feedback.{Provider, notify_success, notify_error}
use kafka_manager.Consumers.{ConsumerGroup, ConsumerSort, lag_desc, sort_consumer_groups}

pub data HealthFilter : Type 0 where
  all lagging healthy : HealthFilter

pub record ConsumersState : Type 0 where
  pub items : List ConsumerGroup
  pub loading : Bool
  pub error : Text
  pub selected : Option ConsumerGroup
  pub query : Text
  pub health : HealthFilter
  pub sort : ConsumerSort

pub start : ConsumersState
start = record {
  items = [];
  loading = true;
  error = [];
  selected = none;
  query = [];
  health = all;
  sort = lag_desc;
}

-- The answer to a request for groups; `failed` is the message of the exception.
pub data GroupsAnswer : Type 0 where
  failed : Text → GroupsAnswer
  listed : List ConsumerGroup → GroupsAnswer

-- `load`, with whether a request is sent.
unfoldable pub load : Text → ConsumersState → ConsumersState × Bool
load cluster_id s = if is_empty cluster_id then (s, false) else (record s { loading = true }, true)

-- The callbacks of `load`. A group without `Partitions` is decoded as one with none.
unfoldable pub load_answered : GroupsAnswer → ConsumersState → ConsumersState
load_answered (failed message) s = record s { error = message; loading = false }
load_answered (listed groups) s = record s { items = groups; error = []; loading = false }

unfoldable pub matches_health : HealthFilter → ConsumerGroup → Bool
matches_health all g = true
matches_health lagging g = is_positive g.total_lag
matches_health healthy g = is_zero g.total_lag

abbrev larger : ℤ → ℤ → ℤ
larger a b = if is_positive (a -ℤ b) then a else b

-- `Math.max(1, ...lags)`, the scale of the bars.
pub max_lag : List ConsumerGroup → ℤ
max_lag [] = pos 1
max_lag (g ∷ gs) = larger g.total_lag (max_lag gs)

module _ (locale_compare : Text → Text → ℤ) (to_lower_case : Text → Text) where
  pub matches_name : Text → ConsumerGroup → Bool
  matches_name query g = includes (to_lower_case g.name) (to_lower_case (trim query))

  pub shown : ConsumersState → List ConsumerGroup
  shown s =
      sort_consumer_groups locale_compare
        (filter (λ g. matches_name s.query g && matches_health s.health g) s.items) s.sort

pub record ResetRequest : Type 0 where
  pub mode : Text
  pub offset : ℕ

pub record DrawerState : Type 0 where
  pub error : Text
  pub mode : Text
  pub resetting : Bool
  pub reset_request : Option ResetRequest
  pub typed : Text
  pub feedback : Provider

pub reset_mode_label : ResetRequest → Text
reset_mode_label r =
    if text_eq r.mode (codes "earliest")
    then codes "最早位置"
    else if text_eq r.mode (codes "absolute")
    then codes "Offset " ++ decimal r.offset
    else codes "最新位置"

abbrev pub is_open : Option ResetRequest → Bool
is_open none = false
is_open (some r) = true

-- `reset`: the dialog opens. The button is disabled for a read-only cluster and while a request is
-- pending.
pub reset : Bool → ℕ → DrawerState → DrawerState
reset read_only offset s = if read_only || s.resetting then s else record s {
  error = [];
  typed = if is_open s.reset_request then s.typed else [];
  reset_request = some (record { mode = s.mode; offset = offset });
}

-- The ways to close the dialog are disabled while the request is pending.
pub close_reset : DrawerState → DrawerState
close_reset s =
    if is_open s.reset_request && not s.resetting
    then record s { reset_request = none; error = [] }
    else s

-- The dialog's `submit`, and `confirmReset` up to its `await`, with the request that is sent.
pub confirm_reset : Text → DrawerState → DrawerState × Option ResetRequest
confirm_reset name s =
    if is_open s.reset_request && enabled s.typed (some name) s.resetting
    then (record s { resetting = true; error = [] }, s.reset_request)
    else (s, none)

-- `confirmReset` after its `await`, with whether the page is told that the offsets were reset.
pub reset_answered : ℕ → Text → ResetRequest → Option Text → DrawerState → DrawerState × Bool
reset_answered now name r none s = (
  record s {
    feedback =
        notify_success now (codes "Consumer Offset 已重置")
          (name ++ (codes " · " ++ reset_mode_label r)) s.feedback;
    reset_request = none;
    resetting = false;
  },
  true,
)
reset_answered now name r (some message) s = (
  record s {
    error = message;
    feedback = notify_error now (codes "重置 Offset 失败") message s.feedback;
    resetting = false;
  },
  false,
)

-- The fields of the page, and that of the drawer for the position, which is disabled for a
-- read-only cluster.
pub set_query : Text → ConsumersState → ConsumersState
set_query value s = record s { query = value }

pub set_health : HealthFilter → ConsumersState → ConsumersState
set_health value s = record s { health = value }

pub set_sort : ConsumerSort → ConsumersState → ConsumersState
set_sort value s = record s { sort = value }

pub set_reset_mode : Bool → Text → DrawerState → DrawerState
set_reset_mode read_only value s = if read_only then s else record s { mode = value }
