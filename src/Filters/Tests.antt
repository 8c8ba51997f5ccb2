-- ===== src/Filters/Tests.antt =====
-- The theorems on message filters at concrete filters.
use kafka_manager.Base.{
  true, List, ◌≡◌, refl, false, Option, none, some, [], ◌∷◌, Text, codes, is_empty, text_eq, ◌++◌,
  if◌then◌else◌,
}
use kafka_manager.Base.Int.{pos, negsuc}
use kafka_manager.Base.Search.{trim, trim_start, is_space}
use kafka_manager.SearchParams.{Params}
use kafka_manager.Filters.JsonValue.{Json, array, nil}
use kafka_manager.Filters.{
  prefix, ValueOperator, gte, exists, Number, finite, MessageFilters, parse_message_filters,
  replace_message_filter_params, sent_array, serializable_json_filters,
}
use kafka_manager.Filters.Sharing.{IsFaithful, shared, parse-replace}
use kafka_manager.Messages.Address.{
  Location, initial_filters, filters_effect, replaced_url, filters_effect-initial_filters,
}
use kafka_manager.Messages.Answers.{PanelEvent}
use kafka_manager.Messages.Panel.{
  FilterEdit, condition, cleared, key, scan_limit, edits, IsBounded, edits-parse-IsBounded,
}

abbrev amount_filter : MessageFilters
amount_filter = record {
  key_filter = codes " order-1 ";
  key_operator = prefix;
  value_filter = codes "  ";
  value_operator = ValueOperator.exact;
  scan_limit = finite (pos 90000) false;
  json_filters =
      record { id = codes "7-0"; path = codes "data.amount"; operator = gte; value = codes "10" }
      ∷ record { id = codes "7-1"; path = codes " "; operator = exists; value = [] }
      ∷ [];
}

-- A pair of host functions that knows the one array of the test.
abbrev stringify_one : Json → Text
stringify_one v = codes "[it]"

abbrev parse_one : Text → Option Json
parse_one t =
    if is_empty t
    then none
    else if text_eq t (codes "[]")
    then some (array nil)
    else if text_eq t (codes "[it]")
    then some (sent_array (serializable_json_filters amount_filter))
    else none

abbrev show_one : Number → Text
show_one n = codes "90000"

abbrev read_one : Text → Number
read_one t = finite (pos 90000) false

faithful : IsFaithful stringify_one parse_one show_one read_one amount_filter
unfolding serializable_json_filters trim trim_start is_space
faithful = record { json = refl; empty_text = refl; empty_array = refl; number = refl }

abbrev address : Params
address =
    (codes "tab", codes "raw")
    ∷ (codes "keyFilter", codes "old")
    ∷ (codes "keyFilter", codes "older")
    ∷ (codes "tab", codes "json")
    ∷ []

parse-replace_example :
    parse_message_filters parse_one read_one
      (replace_message_filter_params stringify_one show_one address amount_filter)
    ≡ shared amount_filter
parse-replace_example =
    parse-replace stringify_one parse_one show_one read_one address amount_filter faithful

abbrev next : Params
next = replace_message_filter_params stringify_one show_one address amount_filter

-- The two queries of the test.
abbrev parse_text : Text → Params
parse_text t =
    if text_eq t (codes "?old") then address else if text_eq t (codes "?new") then next else []

abbrev to_text : Params → Text
to_text ps = codes "new"

abbrev here : Location
here = record { pathname = codes "/clusters/dev/messages"; search = codes "?old"; hash = [] }

filters_effect-initial_filters_example :
    let there = filters_effect parse_text to_text stringify_one show_one amount_filter here in
    (initial_filters parse_text to_text parse_one read_one there ≡ shared amount_filter)
    × (replaced_url parse_text to_text stringify_one show_one amount_filter here
        ≡ there.pathname ++ (there.search ++ there.hash))
filters_effect-initial_filters_example =
    filters_effect-initial_filters parse_text to_text stringify_one parse_one show_one read_one
      amount_filter here faithful (record { text = refl; bare = refl })

abbrev panel_edits : List FilterEdit
panel_edits =
    scan_limit (pos 70000) false
    ∷ condition (PanelEvent.add (codes "9-0"))
    ∷ key prefix (codes "order-")
    ∷ scan_limit (negsuc 3) false
    ∷ cleared
    ∷ scan_limit (pos 2) true
    ∷ []

edits-parse-IsBounded_example :
    IsBounded (edits (parse_message_filters parse_one read_one address) panel_edits)
edits-parse-IsBounded_example = edits-parse-IsBounded parse_one read_one address panel_edits
