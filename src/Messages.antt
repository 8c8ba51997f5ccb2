-- ===== src/Messages.antt =====
-- web/src/pages/MessagesPage.tsx: the state of the page that reads messages.
-- An `await` splits `queryMessages` in two. An `EventSource` is a number; `opened` lists those that
-- the page has opened and not closed, and a closed one delivers nothing, as the browser documents.
-- Number inputs are kept as `String` prints them. `JSON.stringify`, `String` of a number and
-- `new Date(...).getTime()` are parameters.
pub mod Stream
pub mod Answers
pub mod Producer
pub mod Preview
pub mod Address
pub mod Panel
pub mod Form
pub mod Screen
mod Tests
use kafka_manager.Base.{
  ℕ, ◌+◌, Bool, true, false, not, Option, none, some, List, [], ◌∷◌, ◌++◌, ◌==◌, leb, if◌then◌else◌,
  Text, codes, is_empty, text_eq, length, filter, any, take, map,
}
use kafka_manager.Base.Search.{trim}
use kafka_manager.Types.{MessageRecord}
use kafka_manager.Filters.JsonValue.{Json}
use kafka_manager.Filters.{
  Number, MessageFilters, JsonFilterCondition, JsonOperator, active_filter_count,
  filter_query_params, default_filters,
}

pub record MessageQueryResult : Type 0 where
  pub items : List MessageRecord
  pub scanned : Option ℕ
  pub matched : Option ℕ
  pub skipped_invalid_json : Option ℕ
  pub result_limited : Option Bool
  pub scan_limited : Option Bool

pub record QueryMeta : Type 0 where
  pub scanned : ℕ
  pub matched : ℕ
  pub skipped_invalid_json : ℕ
  pub result_limited : Bool
  pub scan_limited : Bool
  pub filters : ℕ

pub record MessagesState : Type 0 where
  pub items : List MessageRecord
  pub selected : Option MessageRecord
  pub error : Text
  pub loading : Bool
  pub producer : Bool
  pub live : Bool
  pub live_filter_count : ℕ
  pub topic : Text
  pub partition : Text
  pub mode : Text
  pub offset : Text
  pub timestamp : Text
  pub limit : Text
  pub filters : MessageFilters
  pub query_meta : Option QueryMeta
  pub stream : Option ℕ
  pub opened : List ℕ
  pub next_source : ℕ

abbrev or_empty : Option Text → Text
or_empty none = []
or_empty (some t) = t

-- The state of a new page, for the filters that the address carries.
unfoldable pub start : Option Text → MessageFilters → MessagesState
start fixed_topic filters = record {
  items = [];
  selected = none;
  error = [];
  loading = false;
  producer = false;
  live = false;
  live_filter_count = 0;
  topic = or_empty fixed_topic;
  partition = codes "-1";
  mode = codes "latest";
  offset = codes "0";
  timestamp = [];
  limit = codes "100";
  filters = filters;
  query_meta = none;
  stream = none;
  opened = [];
  next_source = 0;
}

-- `source?.close()`
abbrev close : Option ℕ → List ℕ → List ℕ
close none opened = opened
close (some source) opened = filter (λ n. not (n == source)) opened

pub stop : MessagesState → MessagesState
stop s = record s {
  opened = close s.stream s.opened;
  stream = none;
  live = false;
  live_filter_count = 0;
}

-- The clean-up of the page, which closes the source and sets no state any more.
pub unmount : MessagesState → MessagesState
unmount s = record s { opened = close s.stream s.opened }

-- What the button does that shows the form of the producer, which is disabled for a read-only cluster
-- (Messages/Screen); the effect for `readOnly` hides the form.
pub toggle_producer : MessagesState → MessagesState
toggle_producer s = record s { producer = not s.producer }

pub read_only_effect : Bool → MessagesState → MessagesState
read_only_effect read_only s = if read_only then record s { producer = false } else s

-- A request on its way: the query, and how many filters were active when it was sent.
pub record QueryRequest : Type 0 where
  pub query : List (Text × Text)
  pub filters : ℕ

-- The answer to a query; `failed` is the message of the exception.
pub data QueryAnswer : Type 0 where
  failed : Text → QueryAnswer
  received : MessageQueryResult → QueryAnswer

abbrev pub first_of {ℓ} : {A : Type ℓ} → List A → Option A
first_of [] = none
first_of (x ∷ xs) = some x

abbrev or_else {ℓ} : {A : Type ℓ} → Option A → A → A
or_else none d = d
or_else (some a) d = a

pub meta_of : MessageQueryResult → ℕ → QueryMeta
meta_of result filters = record {
  scanned = or_else result.scanned (length result.items);
  matched = or_else result.matched (length result.items);
  skipped_invalid_json = or_else result.skipped_invalid_json 0;
  result_limited = or_else result.result_limited false;
  scan_limited = or_else result.scan_limited false;
  filters = filters;
}

-- `queryMessages` after its `await`.
pub query_answered : QueryRequest → QueryAnswer → MessagesState → MessagesState
query_answered request (failed message) s = record s { error = message; loading = false }
query_answered request (received result) s = record s {
  items = result.items;
  selected = first_of result.items;
  error = [];
  query_meta = some (meta_of result request.filters);
  loading = false;
}

-- `source.onmessage`; a text that is no JSON throws before the state is set.
pub on_message : ℕ → Option MessageRecord → MessagesState → MessagesState
on_message source none s = s
on_message source (some message) s =
    if any (λ n. n == source) s.opened then record s { items = take 500 (message ∷ s.items) } else s

-- `source.onerror`
pub on_error : ℕ → MessagesState → MessagesState
on_error source s =
    if any (λ n. n == source) s.opened
    then stop (record s { error = codes "实时连接已中断，可重新开始跟随" })
    else s

-- `follow`
pub follow : MessagesState → MessagesState
follow s =
    if s.live
    then stop s
    else if is_empty (trim s.topic)
    then record s { error = codes "请先选择 Topic" }
    else record s {
      items = [];
      selected = none;
      error = [];
      query_meta = none;
      stream = some s.next_source;
      opened = s.next_source ∷ s.opened;
      next_source = s.next_source + 1;
      live_filter_count = active_filter_count s.filters;
      live = true;
    }

module _ (stringify : Json → Text) (show_number : Number → Text) (epoch : Text → Text) where
  unfoldable pub query_params : Text → MessagesState → List (Text × Text)
  query_params topic s =
      (codes "topic", topic)
      ∷ (codes "partition", s.partition)
      ∷ (codes "mode", s.mode)
      ∷ (codes "limit", s.limit)
      ∷ (codes "offset", s.offset)
      ∷ (codes "timestamp", (if is_empty s.timestamp then codes "0" else epoch s.timestamp))
      ∷ filter_query_params stringify show_number s.filters

  -- `queryMessages` up to its `await`. It does not ask whether a query is on its way; the button that
  -- sends the form is disabled then (Messages/Screen), the one that follows the topic is not.
  pub query_messages : Text → MessagesState → MessagesState × QueryRequest
  query_messages requested_topic s = (
    record (stop s) { loading = true },
    record { query = query_params requested_topic s; filters = active_filter_count s.filters },
  )

  -- The query of the stream that `follow` opens.
  pub stream_params : MessagesState → List (Text × Text)
  stream_params s =
      (codes "topic", s.topic)
      ∷ (codes "partition", s.partition)
      ∷ filter_query_params stringify show_number s.filters

  abbrev bind_topic : Text → MessagesState → MessagesState × Option QueryRequest
  bind_topic name s =
      let (t, request) = query_messages name (record s { topic = name }) in (t, some request)

  -- The effect for the Topic of a workspace, after the clean-up of its run before.
  pub fixed_topic_effect : Option Text → MessagesState → MessagesState × Option QueryRequest
  fixed_topic_effect fixed_topic s =
      if is_empty (or_empty fixed_topic)
      then (stop (stop s), none)
      else bind_topic (or_empty fixed_topic) (stop s)

-- The panel of filters. An id is `${Date.now()}-${count}`; the text is an argument.
pub add_json : Text → MessageFilters → MessageFilters
add_json id f = if leb 5 (length f.json_filters) then f else record f {
  json_filters =
      f.json_filters
      ++ (record { id = id; path = []; operator = JsonOperator.eq; value = [] }) ∷ [];
}

pub remove_json : Text → MessageFilters → MessageFilters
remove_json id f = record f { json_filters = filter (λ c. not (text_eq c.id id)) f.json_filters }

pub update_json :
    Text → (JsonFilterCondition → JsonFilterCondition) → MessageFilters → MessageFilters
update_json id patch f = record f {
  json_filters = map (λ c. if text_eq c.id id then patch c else c) f.json_filters;
}
