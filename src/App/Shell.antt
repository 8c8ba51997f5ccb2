-- ===== src/App/Shell.antt =====
-- The frame around the pages in web/src/App.tsx: the navigation, the sidebar and the top bar.
pub mod Screen
mod Tests
use kafka_manager.Base.{
  ℕ, zero, suc, ◌≡◌, refl, sym, ◌∙◌, Bool, true, false, not, ◌&&◌, ◌||◌, Option, none, some, List,
  [], ◌∷◌, Text, codes, is_empty, any, find, text_eq, length, filter, if◌then◌else◌, arith,
}
use kafka_manager.Types.{Cluster, Status}
use kafka_manager.Dashboard.{has_status}
use kafka_manager.Navigation.Connection.{cluster_status}
use kafka_manager.Navigation.Routes.{Page, AppRoute}
use kafka_manager.Navigation.Sidebar.{
  StorageLike, sidebar_collapsed_key, show_bool, read_sidebar_collapsed, write_sidebar_collapsed,
  Stores, read-write,
}
use kafka_manager.App.{AppState, start, cluster_id, navigate}

-- The pages of the navigation, from top to bottom.
pub nav : List Page
nav =
    Page.dashboard ∷ Page.topics ∷ Page.messages ∷ Page.consumers ∷ Page.settings ∷ Page.audit ∷ []

pub toggle_sidebar : AppState → AppState
toggle_sidebar s = record s { sidebar_collapsed = not s.sidebar_collapsed }

pub open_menu : AppState → AppState
open_menu s = record s { menu_open = true }

pub close_menu : AppState → AppState
close_menu s = record s { menu_open = false }

-- `logout`, whatever the server answers.
pub logged_out : AppState → AppState
logged_out s = record s { authenticated = some false }

-- The cluster picker, which keeps the page; the address is not changed if `encodeURIComponent`
-- throws.
pub pick_cluster : Text → AppState → AppState
pick_cluster id s =
    navigate
      (record { page = s.route.page; cluster_id = some id; topic_name = none; topic_tab = none }) s

-- The warning of the sidebar.
pub health_warning : List Cluster → Bool
health_warning cs = any (λ c. has_status (cluster_status c) Status.offline) cs

-- Of the cluster of the page; without one, the pages are not read-only.
pub is_read_only : AppState → Bool
is_read_only s = elim (find (λ c. text_eq c.id (cluster_id s)) s.clusters) [
  | some c ↦ c.read_only
  | none ↦ false
]

module _ {S : Type 0} (storage : StorageLike S) where
  -- The effect that keeps the sidebar in the storage.
  pub sidebar_effect : AppState → Option S → Option S
  sidebar_effect s stored = write_sidebar_collapsed storage stored s.sidebar_collapsed

  -- The sidebar's button pressed `n` times, each time with the effect after it.
  pub toggles : ℕ → AppState → Option S → AppState × Option S
  toggles zero s stored = (s, stored)
  toggles (suc n) s stored = let t = toggle_sidebar s in toggles n t (sidebar_effect t stored)

  -- A storage that never refuses a value.
  abbrev pub HasRoom : Type 0
  HasRoom = (s : S) (k v : Text) → (t : S) × (storage.set_item s k v ≡ some t)

  module _ (stores : Stores storage) (room : HasRoom) where
    write-set :
        (s t : S) (collapsed : Bool)
        → storage.set_item s sidebar_collapsed_key (show_bool collapsed) ≡ some t
        → write_sidebar_collapsed storage (some s) collapsed ≡ some t
    unfolding write_sidebar_collapsed
    write-set s t collapsed e = ground (arith, e)

    write-some :
        (s : S) (collapsed : Bool)
        → (t : S) × (write_sidebar_collapsed storage (some s) collapsed ≡ some t)
          × (read_sidebar_collapsed storage (some t) ≡ collapsed)
    write-some s collapsed =
        let (t, e) = room s sidebar_collapsed_key (show_bool collapsed) in
        let written : write_sidebar_collapsed storage (some s) collapsed ≡ some t =
          write-set s t collapsed e in
        (t, written, rw written at (read-write storage stores s t collapsed e))

    toggles-suc :
        (n : ℕ) (s : AppState) (stored : Option S)
        → let t = toggle_sidebar s in
          toggles (suc n) s stored
          ≡ toggles n t (write_sidebar_collapsed storage stored t.sidebar_collapsed)
    unfolding toggles sidebar_effect
    toggles-suc n s stored = refl

    toggles-stored :
        (n : ℕ) (s : AppState) (stored : S)
        → read_sidebar_collapsed storage (some stored) ≡ s.sidebar_collapsed
        → let (t, kept) = toggles n s (some stored) in
          read_sidebar_collapsed storage kept ≡ t.sidebar_collapsed
    unfolding toggles
    toggles-stored zero s stored h = h
    toggles-stored (suc n) s stored h =
        let (next, written, same) = write-some stored (toggle_sidebar s).sidebar_collapsed in
        rw (toggles-suc n s (some stored), written) (toggles-stored n (toggle_sidebar s) next same)

    -- In a storage that stores and never refuses a value: however often the sidebar is toggled, the
    -- application that is opened again, at whatever address, has the sidebar as it was left.
    pub sidebar_survives :
        (n : ℕ) (stored : S) (path path' : Text)
        → let first = start path (read_sidebar_collapsed storage (some stored)) in
          let (s, kept) = toggles n first (some stored) in
          (start path' (read_sidebar_collapsed storage kept)).sidebar_collapsed
          ≡ s.sidebar_collapsed
    unfolding start
    sidebar_survives n stored path path' =
        toggles-stored n (start path (read_sidebar_collapsed storage (some stored))) stored refl
