-- ===== src/Server/Parsing/Tests.antt =====
-- A query of the messages page, as the server reads it.
use kafka_manager.Base.{◌≡◌, refl, Option, none, some, List, [], ◌∷◌, Text, codes, ltb}
use kafka_manager.Base.Int.{ℤ, pos, negsuc}
use kafka_manager.Base.Search.{trim}
use kafka_manager.Filters.JsonValue.{Json}
use kafka_manager.Filters.{
  KeyOperator, ValueOperator, JsonOperator, MessageFilters, Number, integer, active_filter_count,
  serializable_json_filters,
}
use kafka_manager.Messages.{MessagesState, start, query_params}
use kafka_manager.Server.{JsonFilter, Query, has_content_filters}
use kafka_manager.Server.Validation.{Checked, ok, check_key, check_value}
use kafka_manager.Server.Parsing.{message_query, int32}
use kafka_manager.Server.Parsing.Agreement.{SentFilters, IsRead, message_query-query_params}

abbrev filters : MessageFilters
filters = record {
  key_filter = codes " order-1 ";
  key_operator = KeyOperator.exact;
  value_filter = [];
  value_operator = ValueOperator.contains;
  scan_limit = integer 5000;
  json_filters =
      record {
        id = codes "a";
        path = codes "user.id";
        operator = JsonOperator.eq;
        value = codes "7";
      }
      ∷ [];
}

abbrev page : MessagesState
page = record (start none filters) { topic = codes "orders" }

abbrev text_of : Json → Text
text_of v = codes "[1]"

abbrev number_text : Number → Text
number_text n = codes "5000"

abbrev epoch : Text → Text
epoch t = codes "0"

abbrev parse_int : Text → Option ℤ
parse_int t = some (pos 100)

abbrev quote : Text → Text → Text
quote format value = format

abbrev unmarshal : Text → Checked (List JsonFilter)
unmarshal t = ok (record { path = codes "user.id"; operator = codes "eq"; value = codes "7" } ∷ [])

filters-IsRead :
    IsRead trim parse_int quote unmarshal text_of number_text epoch
      (serializable_json_filters filters)
unfolding serializable_json_filters trim
filters-IsRead = record { empty = refl; text = refl; trimmed = refl; value = refl }

message_query-query_params_example :
    (q : Query) × (message_query trim parse_int unmarshal
        (query_params text_of number_text epoch (codes "orders") page)
        []
      ≡ ok q)
    × SentFilters filters q
    × (has_content_filters q ≡ ltb 0 (active_filter_count filters))
    × (check_key trim quote q ≡ ok q)
    × (check_value trim quote q ≡ ok q)
unfolding start
message_query-query_params_example =
    message_query-query_params trim parse_int quote unmarshal text_of number_text epoch
      (codes "orders") page [] filters-IsRead

high_partition : int32 (pos 4294967295) ≡ int32 (negsuc 0)
unfolding int32
high_partition = refl
