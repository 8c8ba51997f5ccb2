-- ===== src/Messages/Screen/Tests.antt =====
-- The panel of filters with two conditions.
use kafka_manager.Base.{suc, ◌≡◌, ◌↔◌, ◌<◌, Text, [], ◌∷◌, codes, length}
use kafka_manager.Filters.{
  JsonOperator, JsonFilterCondition, Number, MessageFilters, default_filters,
}
use kafka_manager.Markup.{Offered}
use kafka_manager.Messages.{add_json, remove_json}
use kafka_manager.Messages.Screen.{add_condition, remove_condition, panel_items}
use kafka_manager.Messages.Screen.Conditions.{panel_items-offers_iff}

abbrev number : Number → Text
number n = codes "5000"

abbrev condition : Text → JsonFilterCondition
condition id = record {
  id = id;
  path = codes "user.id";
  operator = JsonOperator.eq;
  value = codes "7";
}

abbrev two : MessageFilters
two = record default_filters {
  json_filters = condition (codes "1-0") ∷ condition (codes "1-1") ∷ [];
}

panel_items-offers_iff_example :
    (Offered add_condition (panel_items number two)
      ↔ (length (add_json (codes "1-0") two).json_filters ≡ suc (length two.json_filters)))
    × (Offered (remove_condition (codes "1-0")) (panel_items number two)
        ↔ (length (remove_json (codes "1-0") two).json_filters < length two.json_filters))
panel_items-offers_iff_example = panel_items-offers_iff number two (codes "1-0")
