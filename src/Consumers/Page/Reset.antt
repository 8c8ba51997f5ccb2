-- ===== src/Consumers/Page/Reset.antt =====
-- When the drawer of a group sends the request that resets the group's offsets.
use kafka_manager.Base.{
  ℕ, ◌≡◌, ◌↔◌, ◌∙◌, Bool, true, false, none, some, List, [], ◌∷◌, arith, Text, text_eq_iff,
  if◌then◌else◌,
}
use kafka_manager.Confirm.{enabled, confirmation_matches}
use kafka_manager.Consumers.Page.{
  ResetRequest, DrawerState, is_open, reset, close_reset, confirm_reset,
}

-- A request is sent exactly if it is the one that the dialog shows, the reader typed the group's
-- name to the letter, and none is pending.
pub confirm_reset-sends_iff :
    (name : Text) (s : DrawerState) (r : ResetRequest)
    → ((confirm_reset name s).1 ≡ some r)
      ↔ ((s.reset_request ≡ some r) × (s.typed ≡ name) × (s.resetting ≡ false))
unfolding confirm_reset enabled confirmation_matches
confirm_reset-sends_iff name s r = ground (arith, text_eq_iff s.typed name)

-- What happens in the drawer, without the answers to the request that is sent.
pub data ResetEvent : Type 0 where
  opened : ℕ → ResetEvent
  closed : ResetEvent
  typed : Text → ResetEvent
  choose : Text → ResetEvent

module _ (read_only : Bool) where
  pub reset_step : DrawerState → ResetEvent → DrawerState
  reset_step s (opened offset) = reset read_only offset s
  reset_step s closed = close_reset s
  reset_step s (typed value) = if is_open s.reset_request then record s { typed = value } else s
  reset_step s (choose mode) = record s { mode = mode }

  pub reset_run : DrawerState → List ResetEvent → DrawerState
  reset_run s [] = s
  reset_run s (e ∷ es) = reset_run (reset_step s e) es

-- A request is pending in `t`, and it is the one that `s` shows.
abbrev pub IsHeld : DrawerState → DrawerState → Type 0
IsHeld s t = (t.reset_request ≡ s.reset_request) × (t.resetting ≡ true)

reset_step-IsHeld :
    (read_only : Bool) (s t : DrawerState) (e : ResetEvent)
    → IsHeld s t
    → IsHeld s (reset_step read_only t e)
unfolding reset_step reset close_reset
reset_step-IsHeld read_only s t (opened offset) h = ground arith
reset_step-IsHeld read_only s t closed h = ground arith
reset_step-IsHeld read_only s t (typed value) h = ground arith
reset_step-IsHeld read_only s t (choose mode) h = h

reset_run-IsHeld :
    (read_only : Bool) (s t : DrawerState) (es : List ResetEvent)
    → IsHeld s t
    → IsHeld s (reset_run read_only t es)
unfolding reset_run
reset_run-IsHeld read_only s t [] h = h
reset_run-IsHeld read_only s t (e ∷ es) h =
    reset_run-IsHeld read_only s (reset_step read_only t e) es (reset_step-IsHeld read_only s t e h)

sent-IsHeld :
    (name : Text) (s : DrawerState) {r : ResetRequest}
    → (confirm_reset name s).1 ≡ some r
    → IsHeld s (confirm_reset name s).0
unfolding confirm_reset
sent-IsHeld name s e = ground arith

not_sent : (name : Text) (t : DrawerState) → t.resetting ≡ true → (confirm_reset name t).1 ≡ none
unfolding confirm_reset enabled
not_sent name t h = ground arith

-- From the time a request is sent until it is answered, whatever the reader does in the drawer and
-- the dialog, as long as the drawer stays open: the dialog keeps showing that request, and no other
-- one is sent.
reset_pending :
    (read_only : Bool) (name : Text) (s : DrawerState) (r : ResetRequest) (es : List ResetEvent)
    → (confirm_reset name s).1 ≡ some r
    → let t = reset_run read_only (confirm_reset name s).0 es in
      (t.reset_request ≡ some r) × ((confirm_reset name t).1 ≡ none)
reset_pending read_only name s r es e =
    let t : DrawerState = reset_run read_only (confirm_reset name s).0 es in
    let held : IsHeld s t =
      reset_run-IsHeld read_only s (confirm_reset name s).0 es (sent-IsHeld name s e) in
    (held.0 ∙ ((confirm_reset-sends_iff name s r).0 e).0, not_sent name t held.1)
