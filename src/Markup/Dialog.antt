-- ===== src/Markup/Dialog.antt =====
-- `PageHeader`, `Dialog` and `ConfirmDialog` of web/src/components/Common.tsx, as items of a screen.
use kafka_manager.Base.{
  Bool, false, not, Option, none, some, List, ◌∷◌, [], ◌++◌, if◌then◌else◌, Text, codes,
}
use kafka_manager.Confirm.{enabled}
use kafka_manager.Markup.{Item, text, button, field, error_items}

module _ {E : Type 0} where
  unfoldable pub page_header : Text → Text → Text → List (Item E) → List (Item E)
  page_header code title description actions = text code ∷ text title ∷ text description ∷ actions

  -- The two ways to close a dialog that are controls: the cross, and what `close` is given.
  unfoldable pub dialog : Text → Bool → E → List (Item E) → List (Item E)
  dialog title close_disabled close content =
      text title ∷ button (codes "关闭") close_disabled none close ∷ content

  abbrev confirmation_field : Option Text → Text → (Text → E) → List (Item E)
  confirmation_field none value type_value = []
  confirmation_field (some expected) value type_value =
      field (codes "输入 " ++ (expected ++ codes " 继续")) value false type_value ∷ []

  abbrev pub confirm_buttons : Text → Bool → Bool → E → E → List (Item E)
  confirm_buttons label pending is_enabled close confirm =
      button (codes "取消") pending none close
      ∷ button (if pending then codes "正在执行…" else label) (not is_enabled) none confirm
      ∷ []

  -- A confirmation: its title, what it says, the label of its button, the text to type, what is
  -- typed, whether the request is pending, the error, and what typing, closing and confirming do.
  unfoldable pub confirm_dialog :
      Text
      → List (Item E)
      → Text
      → Option Text
      → Text
      → Bool
      → Text
      → (Text → E)
      → E
      → E
      → List (Item E)
  confirm_dialog title description label expected value pending error type_value close confirm =
      dialog title pending close (
        description
        ++ (confirmation_field expected value type_value
            ++ (error_items error
                ++ confirm_buttons label pending (enabled value expected pending) close confirm)))
