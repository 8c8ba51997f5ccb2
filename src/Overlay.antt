-- ===== src/Overlay.antt =====
-- `Dialog` and `Drawer` of web/src/components/Common.tsx: the layers over a page, which take the
-- focus, keep it, and give it back; and `Tabs`, whose tabs are reached by the arrow keys.
-- An element of the document is a number. Whether an element is still in the document, without
-- which `focus()` does nothing, is a parameter, and so is the list of elements of a layer that can
-- have the focus, which is queried anew at each key.
pub mod Focus
pub mod Trap
pub mod Arrows
mod Tests
use kafka_manager.Base.{
  ℕ, ◌+◌, ◌-◌, ◌%◌, Bool, true, false, not, ◌&&◌, Option, none, some, List, [], ◌∷◌, ◌==◌,
  if◌then◌else◌, Text, codes, get_elem?, length,
}

-- `document.activeElement`, if it is an element of the page, and `document.body.style.overflow`.
pub record Document : Type 0 where
  pub active : Option ℕ
  pub overflow : Text

-- What the effect of a layer keeps for its clean-up.
pub record Saved : Type 0 where
  pub old_overflow : Text
  pub previous : Option ℕ

pub data Key : Type 0 where
  escape : Key
  tab : (shift : Bool) → Key
  other : Key

-- What the listener does with a key: the document after it, whether the layer is closed, and
-- whether the browser's own handling is prevented.
pub record Reaction : Type 0 where
  pub document : Document
  pub closes : Bool
  pub prevents : Bool

abbrev pub ignored : Document → Reaction
ignored d = record { document = d; closes = false; prevents = false }

abbrev pub first_of : List ℕ → Option ℕ
first_of [] = none
first_of (x ∷ xs) = some x

abbrev pub last_of : ℕ → List ℕ → ℕ
last_of x [] = x
last_of x (y ∷ ys) = last_of y ys

abbrev pub is_active : ℕ → Document → Bool
is_active n d = elim d.active [ none ↦ false | some a ↦ a == n ]

module _ (attached : ℕ → Bool) where
  abbrev pub focus : Option ℕ → Document → Document
  focus none d = d
  focus (some n) d = if attached n then record d { active = some n } else d

  -- The effect of a layer, which listens to the keys from then on.
  pub mount : List ℕ → Document → Document × Saved
  mount focusable d = (
    focus (first_of focusable) (record d { overflow = codes "hidden" }),
    record { old_overflow = d.overflow; previous = d.active },
  )

  -- The clean-up of the effect.
  pub unmount : Saved → Document → Document
  unmount saved d = focus saved.previous (record d { overflow = saved.old_overflow })

  abbrev cycle : Bool → ℕ → List ℕ → Document → Reaction
  cycle shift first rest d =
      let last = last_of first rest in
      if shift && is_active first d
      then record { document = focus (some last) d; closes = false; prevents = true }
      else if not shift && is_active last d
      then record { document = focus (some first) d; closes = false; prevents = true }
      else ignored d

  -- The listener of a dialog.
  pub dialog_key : Bool → List ℕ → Key → Document → Reaction
  dialog_key close_disabled focusable escape d = record {
    document = d;
    closes = not close_disabled;
    prevents = false;
  }
  dialog_key close_disabled [] (tab shift) d = ignored d
  dialog_key close_disabled (first ∷ rest) (tab shift) d = cycle shift first rest d
  dialog_key close_disabled focusable other d = ignored d

  -- The listener of a drawer, which is always closed by the escape key.
  pub drawer_key : List ℕ → Key → Document → Reaction
  drawer_key = dialog_key false

  -- A layer whose effect runs again, since one of its dependencies has changed.
  pub run_again : List ℕ → Saved → Document → Document × Saved
  run_again focusable saved d = mount focusable (unmount saved d)

-- The index that an arrow key moves to; `-1` is a subtraction after the length was added.
pub next_tab : (right : Bool) → ℕ → ℕ → ℕ
next_tab right n index = (if right then index + 1 + n else index + n - 1) % n

-- The keys of a tab: the tab that is chosen, and focused.
pub data ArrowKey : Type 0 where
  left right other : ArrowKey

module _ {ℓ} {A : Type ℓ} where
  pub key_down : List A → ℕ → ArrowKey → Option A
  key_down items index left = get_elem? items (next_tab false (length items) index)
  key_down items index right = get_elem? items (next_tab true (length items) index)
  key_down items index other = none
