-- ===== src/Navigation/Sidebar.antt =====
-- web/src/navigation/sidebar-state.ts: the sidebar's state, kept in the browser's storage.
-- `getItem` and `setItem` throw in some browsers: `getItem` is `none` then, and `setItem` leaves
-- the storage to the host. A storage that is not there is `none`.
use kafka_manager.Base.{◌≡◌, true, false, Bool, Option, none, some, Text, codes, text_eq}

abbrev pub sidebar_collapsed_key : Text
sidebar_collapsed_key = codes "kafka-manager.sidebar.collapsed"

abbrev pub show_bool : Bool → Text
show_bool true = codes "true"
show_bool false = codes "false"

-- A storage whose state is `S`. The outer option of `get_item` is an exception, the inner one a
-- missing key; `none` of `set_item` is an exception.
pub record StorageLike (S : Type 0) : Type 0 where
  pub get_item : S → Text → Option (Option Text)
  pub set_item : S → Text → Text → Option S

module _ {S : Type 0} (storage : StorageLike S) where
  abbrev is_true : Option (Option Text) → Bool
  is_true (some (some t)) = text_eq t (codes "true")
  is_true _ = false

  pub read_sidebar_collapsed : Option S → Bool
  read_sidebar_collapsed none = false
  read_sidebar_collapsed (some s) = is_true (storage.get_item s sidebar_collapsed_key)

  unfoldable pub write_sidebar_collapsed : Option S → Bool → Option S
  write_sidebar_collapsed none collapsed = none
  write_sidebar_collapsed (some s) collapsed =
      elim (storage.set_item s sidebar_collapsed_key (show_bool collapsed)) [
        | some t ↦ some t
        | none ↦ some s
      ]

  -- A storage that stores: what was set is got, if setting did not fail.
  abbrev pub Stores : Type 0
  Stores =
      (s t : S) (k v : Text)
      → storage.set_item s k v ≡ some t
      → storage.get_item t k ≡ some (some v)

  -- In a storage that stores, and whose quota is not used up, the state of the sidebar is read as
  -- it was written.
  pub read-write :
      Stores
      → (s t : S) (collapsed : Bool)
      → storage.set_item s sidebar_collapsed_key (show_bool collapsed) ≡ some t
      → read_sidebar_collapsed (write_sidebar_collapsed (some s) collapsed) ≡ collapsed
  unfolding read_sidebar_collapsed write_sidebar_collapsed
  read-write stores s t true e =
      rw (e, write_sidebar_collapsed)
        (rw (stores s t sidebar_collapsed_key _ e, read_sidebar_collapsed))
  read-write stores s t false e =
      rw (e, write_sidebar_collapsed)
        (rw (stores s t sidebar_collapsed_key _ e, read_sidebar_collapsed))

  -- A storage that cannot be read shows the sidebar expanded.
  pub read_failed :
      (s : S)
      → storage.get_item s sidebar_collapsed_key ≡ none
      → read_sidebar_collapsed (some s) ≡ false
  unfolding read_sidebar_collapsed
  read_failed s e = rw (e, read_sidebar_collapsed)
