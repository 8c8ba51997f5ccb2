-- ===== src/Workspace/Screen/Acting/Tests.antt =====
-- A topic's page on a read-only cluster, and one on which the form was open when the cluster became
-- read-only.
use kafka_manager.Base.{◌≡◌, refl, inl, inr, true, false, [], ◌∷◌, Text, codes, All}
use kafka_manager.Types.{Topic}
use kafka_manager.Feedback.{Provider}
use kafka_manager.Markup.{Offered}
use kafka_manager.Navigation.Routes.{partitions, config}
use kafka_manager.Workspace.Screen.{
  add, toggle_adding, list_configs, choose_tab, Page, opened, mounted, page_items, panel_items,
  heading, tabs, partitions_items,
}
use kafka_manager.Workspace.Screen.Acting.{act, panel_act}
use kafka_manager.Workspace.Screen.Acting.Safe.{
  IsHarmless, first, OffersHere, Reached-act-IsHarmless,
}

abbrev orders : Topic
orders = record {
  name = codes "orders";
  is_internal = false;
  partition_count = 1;
  replication_factor = 1;
  under_replicated = 0;
  partitions = [];
}

abbrev quiet : Provider
quiet = record { items = []; serial = 0 }

abbrev same : Text → Text
same t = t

abbrev first_page : Page
first_page = opened quiet partitions

offers_config : (p : Page) → OffersHere same orders (codes "dev") quiet p (choose_tab config)
unfolding page_items heading tabs
offers_config p = inr (inr (inr (inr (inr (inr (inr (inr (inr (inr (inr (inl refl)))))))))))

Reached-act-IsHarmless_example : All IsHarmless (act orders.name (choose_tab config) first_page).1
Reached-act-IsHarmless_example =
    Reached-act-IsHarmless same orders (codes "dev") quiet {p = first_page} (choose_tab config)
      (first partitions) (offers_config first_page)

configs_listed : (act orders.name (choose_tab config) first_page).1 ≡ list_configs ∷ []
unfolding act opened
configs_listed = refl

-- The page with the form to add partitions open, as it is if the cluster becomes read-only then.
abbrev open_form : Page
open_form = (act orders.name toggle_adding first_page).0

-- The form still offers to send the request.
add-Offered : Offered add (panel_items same orders true open_form.panel)
unfolding panel_items partitions_items act panel_act opened mounted
add-Offered = inr (inr (inl refl))
