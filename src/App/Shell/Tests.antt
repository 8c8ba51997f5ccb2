-- ===== src/App/Shell/Tests.antt =====
-- The theorems on the frame at a concrete storage, and before the clusters are loaded.
use kafka_manager.Base.{◌≡◌, ◌↔◌, refl, any, text_eq, true, false, some, Text, codes, some_inj}
use kafka_manager.Navigation.Sidebar.{StorageLike, Stores, read_sidebar_collapsed}
use kafka_manager.Theme.{ThemeMode}
use kafka_manager.Markup.{Offered}
use kafka_manager.Navigation.Routes.{Page}
use kafka_manager.App.{AppState, start}
use kafka_manager.App.Shell.Screen.{pick_cluster, change_page, frame_items, frame_items-offers_iff}
use kafka_manager.App.Shell.{HasRoom, toggles, sidebar_survives}

-- A storage with room for the value that was set last.
abbrev last_value : StorageLike Text
last_value = record { get_item = λ s k. some (some s); set_item = λ s k v. some v }

last_value-Stores : Stores last_value
last_value-Stores s t k v e = rw (some_inj e) refl

last_value-HasRoom : HasRoom last_value
last_value-HasRoom s k v = (v, refl)

sidebar_survives_example :
    let first =
      start (codes "/dashboard") (read_sidebar_collapsed last_value (some (codes "true"))) in
    let (s, kept) = toggles last_value 3 first (some (codes "true")) in
    (start (codes "/audit") (read_sidebar_collapsed last_value kept)).sidebar_collapsed
    ≡ s.sidebar_collapsed
sidebar_survives_example =
    sidebar_survives last_value last_value-Stores last_value-HasRoom 3 (codes "true")
      (codes "/dashboard") (codes "/audit")

abbrev opened : AppState
opened = start (codes "/clusters/dev/topics") false

frame_items-offers_iff_example :
    (Offered (pick_cluster (codes "dev")) (frame_items ThemeMode.dark opened)
      ↔ (any (λ c. text_eq c.id (codes "dev")) opened.clusters ≡ true))
    × Offered (change_page Page.topics) (frame_items ThemeMode.dark opened)
frame_items-offers_iff_example =
    frame_items-offers_iff ThemeMode.dark opened (codes "dev") Page.topics
