-- ===== src/Messages/Tests.antt =====
-- The theorems on the page of messages at concrete events.
use kafka_manager.Base.{
  ◌==◌, take, any, true, refl, ℕ, ◌≡◌, false, none, some, List, [], ◌∷◌, arith, Text, codes,
}
use kafka_manager.Base.Search.{trim}
use kafka_manager.Base.Int.{pos}
use kafka_manager.Types.{MessageRecord}
use kafka_manager.Filters.JsonValue.{Json}
use kafka_manager.Filters.{Number, MessageFilters, KeyOperator, ValueOperator, finite}
use kafka_manager.Messages.{
  MessageQueryResult, MessagesState, start, unmount, received, query_messages, query_answered,
  meta_of, follow,
}
use kafka_manager.Messages.Stream.{
  MessagesEvent, submit, toggle_follow, answered, message, type_topic, broken, IsWell, messages_run,
  messages_run-start-IsWell,
}
use kafka_manager.Messages.Answers.{deliver, latest_first, late_query_replaces_stream}

abbrev plain_json : Json → Text
plain_json v = codes "[]"

abbrev plain_number : Number → Text
plain_number n = codes "5000"

abbrev plain_epoch : Text → Text
plain_epoch t = codes "0"

abbrev no_filters : MessageFilters
no_filters = record {
  key_filter = [];
  key_operator = KeyOperator.contains;
  value_filter = [];
  value_operator = ValueOperator.contains;
  scan_limit = finite (pos 5000) false;
  json_filters = [];
}

abbrev order : ℕ → MessageRecord
order n = record {
  topic = codes "orders";
  partition = 0;
  offset = n;
  timestamp = pos 1700;
  key = [];
  value = codes "{}";
  headers = [];
}

abbrev two_orders : MessageQueryResult
two_orders = record {
  items = order 8 ∷ order 7 ∷ [];
  scanned = some 2;
  matched = none;
  skipped_invalid_json = none;
  result_limited = none;
  scan_limited = some false;
}

abbrev visit : List MessagesEvent
visit =
    type_topic (codes "orders")
    ∷ toggle_follow
    ∷ message 0 (some (order 1))
    ∷ submit
    ∷ answered (record { query = []; filters = 0 }) (received two_orders)
    ∷ toggle_follow
    ∷ message 0 (some (order 2))
    ∷ message 1 (some (order 3))
    ∷ broken 1
    ∷ toggle_follow
    ∷ []

abbrev visited : MessagesState
visited = messages_run plain_json plain_number plain_epoch (start none no_filters) visit

messages_run-start-IsWell_example : IsWell visited × ((unmount visited).opened ≡ [])
messages_run-start-IsWell_example =
    messages_run-start-IsWell plain_json plain_number plain_epoch none no_filters visit
      (tt, (tt, (tt, (tt, (omega arith, (tt, (tt, (tt, (tt, (tt, tt))))))))))

-- A page on which a topic is typed in.
abbrev typed_in : MessagesState
typed_in = record (start none no_filters) { topic = codes "orders" }

late_query_replaces_stream_example :
    let (asked, request) =
      query_messages plain_json plain_number plain_epoch (codes "orders") typed_in in
    let t = deliver 0 (order 1 ∷ order 2 ∷ []) (follow asked) in
    let u = query_answered request (received two_orders) t in
    (t.items ≡ take 500 (latest_first (order 1 ∷ order 2 ∷ []) []))
    × (t.live ≡ true)
    × (u.items ≡ two_orders.items)
    × (u.query_meta ≡ some (meta_of two_orders request.filters))
    × (u.live ≡ true)
    × (any (λ n. n == 0) u.opened ≡ true)
unfolding trim start
late_query_replaces_stream_example =
    late_query_replaces_stream plain_json plain_number plain_epoch typed_in (order 1 ∷ order 2 ∷ [])
      two_orders refl
