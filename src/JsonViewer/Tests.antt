-- ===== src/JsonViewer/Tests.antt =====
-- What the viewer shows of one array.
use kafka_manager.Base.{◌≡◌, refl, Option, some, [], Text, codes}
use kafka_manager.Base.Decimal.{decimal, digits_from}
use kafka_manager.Filters.JsonValue.{Json, null, array, cons, nil}
use kafka_manager.JsonViewer.{Content, content, first_view, toggle_collapsed, summary}
use kafka_manager.Messages.Preview.{json, parse_message_value}

abbrev one_null : Json
one_null = array (cons null nil)

abbrev empty_text : Json → Text
empty_text v = []

abbrev same : Text → Text
same n = n

abbrev always : Text → Option Json
always raw = some one_null

tree_shown : content always empty_text empty_text same [] first_view ≡ Content.tree one_null
unfolding content first_view parse_message_value
tree_shown = refl

folded_shown :
    content always empty_text empty_text same [] (toggle_collapsed (json one_null) first_view)
    ≡ Content.folded (codes "Array(1)")
unfolding content first_view toggle_collapsed summary parse_message_value decimal digits_from
folded_shown = refl
