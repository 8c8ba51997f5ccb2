-- ===== src/Consumers/Page/Screen.antt =====
-- The page of consumer groups together with the drawer that is open over it, and with the dialog
-- over the drawer (web/src/pages/ConsumersPage.tsx, `Drawer` of web/src/components/Common.tsx).
-- The drawer and the dialog each listen to the keys of the window, and both hear a key.
pub mod Escape
mod Tests
use kafka_manager.Base.{
  ℕ, Bool, true, false, Option, none, some, List, [], ◌∷◌, if◌then◌else◌, Text, codes,
}
use kafka_manager.Feedback.{Provider}
use kafka_manager.Consumers.{ConsumerGroup}
use kafka_manager.Consumers.Page.{
  ConsumersState, DrawerState, ResetRequest, is_open, reset, close_reset, confirm_reset,
}

pub record Screen : Type 0 where
  pub page : ConsumersState
  pub drawer : Option DrawerState

-- The state of a drawer that opens.
pub start_drawer : Provider → DrawerState
start_drawer feedback = record {
  error = [];
  mode = codes "latest";
  resetting = false;
  reset_request = none;
  typed = [];
  feedback = feedback;
}

-- `setSelected(group)`: a drawer that is open already keeps its state.
pub select : Provider → ConsumerGroup → Screen → Screen
select feedback group s = record {
  page = record (s.page) { selected = some group };
  drawer = some (elim s.drawer [ none ↦ start_drawer feedback | some d ↦ d ]);
}

-- `close` of the drawer, with which the dialog over it goes too.
pub close : Screen → Screen
close s = record { page = record (s.page) { selected = none }; drawer = none }

-- The handlers of the drawer, if it is open.
abbrev pub in_drawer : (DrawerState → DrawerState) → Screen → Screen
in_drawer f s = elim s.drawer [ none ↦ s | some d ↦ record s { drawer = some (f d) } ]

-- The escape key: the dialog's listener closes the dialog unless a request is pending; the drawer's
-- listener, which hears the key as well, closes the drawer.
pub press_escape : Screen → Screen
press_escape s = elim s.drawer [ none ↦ s | some d ↦ close (in_drawer close_reset s) ]

-- The dialog's button, with the request that is sent.
pub confirm : Text → Screen → Screen × Option ResetRequest
confirm name s = elim s.drawer [
  | none ↦ (s, none)
  | some d ↦ let (e, sent) = confirm_reset name d in (record s { drawer = some e }, sent)
]
