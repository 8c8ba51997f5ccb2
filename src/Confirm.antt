-- ===== src/Confirm.antt =====
-- web/src/components/confirmation-model.ts, and the button of `ConfirmDialog` in
-- web/src/components/Common.tsx.
use kafka_manager.Base.{Bool, true, not, ◌&&◌, Option, none, some, Text, text_eq}

unfoldable pub confirmation_matches : Text → Option Text → Bool
confirmation_matches value none = true
confirmation_matches value (some expected) = text_eq value expected

unfoldable pub enabled : Text → Option Text → Bool → Bool
enabled value confirmation_text pending =
    confirmation_matches value confirmation_text && not pending
