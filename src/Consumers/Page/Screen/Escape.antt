-- ===== src/Consumers/Page/Screen/Escape.antt =====
-- What the escape key does while a reset is pending.
use kafka_manager.Base.{ℕ, ◌≡◌, refl, false, none, some, codes}
use kafka_manager.Confirm.{enabled, confirmation_matches}
use kafka_manager.Feedback.{Provider}
use kafka_manager.Consumers.{ConsumerGroup}
use kafka_manager.Consumers.Page.{ConsumersState, reset, confirm_reset}
use kafka_manager.Consumers.Page.Reset.{confirm_reset-sends_iff}
use kafka_manager.Consumers.Page.Screen.{
  Screen, start_drawer, select, close, in_drawer, press_escape, confirm,
}

-- What a reader does to reset the offsets of a group from the list: the drawer, the form, the name
-- of the group in the dialog. The button of the dialog comes next.
pub ask_reset : Provider → ConsumerGroup → ℕ → Screen → Screen
ask_reset feedback group offset s =
    in_drawer (λ d. record d { typed = group.name })
      (in_drawer (reset false offset) (select feedback group s))

-- A reset that is pending can be sent again: the escape key closes the drawer, although the dialog
-- does not let itself be closed, and the drawer, once it is opened again, does not know of the
-- request.
pub reset_sent_again :
    (feedback : Provider) (group : ConsumerGroup) (one other : ℕ) (page : ConsumersState)
    → let s : Screen = record { page = page; drawer = none } in
      let (pending, first) = confirm group.name (ask_reset feedback group one s) in
      let (after, second) =
        confirm group.name (ask_reset feedback group other (press_escape pending)) in
      (first ≡ some (record { mode = codes "latest"; offset = one }))
      × (second ≡ some (record { mode = codes "latest"; offset = other }))
unfolding ask_reset confirm press_escape close select start_drawer reset confirm_reset enabled
    confirmation_matches
reset_sent_again feedback group one other page = (
  (confirm_reset-sends_iff group.name _ _).1 (refl, refl, refl),
  (confirm_reset-sends_iff group.name _ _).1 (refl, refl, refl),
)
