-- ===== src/Server/Parsing/Agreement.antt =====
-- The parameters that the messages page writes, as the server reads them.
use kafka_manager.Base.{
  ◌+◌, ◌≡◌, ◌∙◌, refl, Bool, false, Option, List, [], ◌∷◌, arith, if◌then◌else◌, Text, codes,
  is_empty, ltb, length, map,
}
use kafka_manager.Base.Int.{ℤ}
use kafka_manager.Base.Search.{trim}
use kafka_manager.SearchParams.{Params, get}
use kafka_manager.Filters.JsonValue.{Json}
use kafka_manager.Filters.{
  KeyOperator, prefix, ValueOperator, key_operator_name, value_operator_name, json_operator_name,
  MessageFilters, Number, SentCondition, sent_array, serializable_json_filters, active_filter_count,
  filter_query_params, is_nil,
}
use kafka_manager.Filters.Entries.{entries}
use kafka_manager.Messages.{MessagesState, query_params}
use kafka_manager.Server.{JsonFilter, Query, has_content_filters}
use kafka_manager.Server.Validation.{Checked, ok, check_key, check_value}
use kafka_manager.Server.Parsing.{param, plain_query, message_query}

-- A condition as the server holds it.
abbrev pub received : SentCondition → JsonFilter
received c = record { path = c.path; operator = json_operator_name c.operator; value = c.value }

abbrev text_unless : Bool → Text → Text
text_unless b v = if b then [] else v

-- What the entries say of each name, if others stand before them.
module _ (a b c : Bool) (k ko v vo js limit : Text) where
  abbrev es : Params
  es = entries a b c k ko v vo js limit

  record Says : Type 0 where
    key : param (codes "keyFilter") es ≡ text_unless a k
    key_operator : param (codes "keyOperator") es ≡ text_unless a ko
    value : param (codes "valueFilter") es ≡ text_unless b v
    value_operator : param (codes "valueOperator") es ≡ text_unless b vo
    json : param (codes "jsonFilters") es ≡ text_unless c js

  says : Says
  unfolding get
  says = ground arith

is_empty-text_unless : (v : Text) → text_unless (is_empty v) v ≡ v
is_empty-text_unless [] = refl
is_empty-text_unless (c ∷ v) = refl

-- What the server reads of the page's filters.
abbrev pub SentFilters : MessageFilters → Query → Type 0
SentFilters f q =
    (q.key_filter ≡ trim f.key_filter)
    × (q.key_operator
        ≡ text_unless (is_empty (trim f.key_filter)) (key_operator_name f.key_operator))
    × (q.value_filter ≡ trim f.value_filter)
    × (q.value_operator
        ≡ text_unless (is_empty (trim f.value_filter)) (value_operator_name f.value_operator))
    × (q.json_filters ≡ map received (serializable_json_filters f))

module _ (trim_space : Text → Text) (parse_int : Text → Option ℤ) (quote : Text → Text → Text)
    (unmarshal : Text → Checked (List JsonFilter)) (stringify : Json → Text)
    (show_number : Number → Text) (epoch : Text → Text) where
  -- The conditions as JSON: not empty, with no space around them, and read back as they are.
  pub record IsRead (cs : List SentCondition) : Type 0 where
    pub empty : trim_space [] ≡ []
    pub text : is_empty (stringify (sent_array cs)) ≡ false
    pub trimmed : trim_space (stringify (sent_array cs)) ≡ stringify (sent_array cs)
    pub value : unmarshal (stringify (sent_array cs)) ≡ ok (map received cs)

  abbrev with_json : Query → List SentCondition → Query
  with_json q cs = record q { json_filters = map received cs }

  message_query-read :
      (cs : List SentCondition) (ps : Params) (mode : Text)
      → IsRead cs
      → param (codes "jsonFilters") ps ≡ text_unless (is_nil cs) (stringify (sent_array cs))
      → message_query trim_space parse_int unmarshal ps mode
        ≡ ok (with_json (plain_query trim_space parse_int unmarshal ps mode) cs)
  unfolding message_query plain_query
  message_query-read [] ps mode h e = rw (e, h.empty) refl
  message_query-read (c ∷ cs) ps mode h e = rw (e, h.trimmed, h.text, h.value) refl

  abbrev page_params : Text → MessagesState → Params
  page_params = query_params stringify show_number epoch

  -- The query that the server reads.
  abbrev page_query : Text → MessagesState → Text → Query
  page_query topic s mode =
      with_json (plain_query trim_space parse_int unmarshal (page_params topic s) mode)
        (serializable_json_filters s.filters)

  abbrev page_says :
      (s : MessagesState)
      → Says
          (is_empty (trim s.filters.key_filter))
          (is_empty (trim s.filters.value_filter))
          (is_nil (serializable_json_filters s.filters))
          (trim s.filters.key_filter)
          (key_operator_name s.filters.key_operator)
          (trim s.filters.value_filter)
          (value_operator_name s.filters.value_operator)
          (stringify (sent_array (serializable_json_filters s.filters)))
          (show_number s.filters.scan_limit)
  page_says s = says _ _ _ _ _ _ _ _ _

  page_query-SentFilters :
      (topic : Text) (s : MessagesState) (mode : Text)
      → SentFilters s.filters (page_query topic s mode)
  unfolding plain_query query_params filter_query_params get
  page_query-SentFilters topic s mode =
      let h = page_says s in
      (
        h.key ∙ is_empty-text_unless (trim s.filters.key_filter),
        h.key_operator,
        h.value ∙ is_empty-text_unless (trim s.filters.value_filter),
        h.value_operator,
        refl,
      )

  json-query_params :
      (topic : Text) (s : MessagesState)
      → param (codes "jsonFilters") (page_params topic s)
        ≡ text_unless
            (is_nil (serializable_json_filters s.filters))
            (stringify (sent_array (serializable_json_filters s.filters)))
  unfolding query_params filter_query_params get
  json-query_params topic s = (page_says s).json

  counts-has_content_filters :
      (k v : Text) (cs : List SentCondition) (q : Query)
      → q.key_filter ≡ k
      → q.value_filter ≡ v
      → q.json_filters ≡ map received cs
      → has_content_filters q
        ≡ ltb 0 ((if is_empty k then 0 else 1) + (if is_empty v then 0 else 1) + length cs)
  counts-has_content_filters k v [] q e f g = rw (e, f, g) (ground arith)
  counts-has_content_filters k v (c ∷ cs) q e f g = rw (e, f, g) (ground arith)

  check_key-accepts :
      (k : Text) (o : KeyOperator) (q : Query)
      → q.key_filter ≡ k
      → q.key_operator ≡ text_unless (is_empty k) (key_operator_name o)
      → check_key trim_space quote q ≡ ok q
  unfolding check_key
  check_key-accepts [] o q e f = ground arith
  check_key-accepts (c ∷ k) KeyOperator.contains q e f = ground arith
  check_key-accepts (c ∷ k) KeyOperator.exact q e f = ground arith
  check_key-accepts (c ∷ k) prefix q e f = ground arith

  check_value-accepts :
      (v : Text) (o : ValueOperator) (q : Query)
      → q.value_filter ≡ v
      → q.value_operator ≡ text_unless (is_empty v) (value_operator_name o)
      → check_value trim_space quote q ≡ ok q
  unfolding check_value
  check_value-accepts [] o q e f = ground arith
  check_value-accepts (c ∷ v) ValueOperator.contains q e f = ground arith
  check_value-accepts (c ∷ v) ValueOperator.exact q e f = ground arith

  -- The server reads the filters of a query that the page writes, if its parameters arrive as they are
  -- sent: the texts, the operators, and the conditions on JSON, provided that JSON is read back as it
  -- is written. It looks at the contents of messages exactly if the page counts a filter, and it
  -- accepts the operators on keys and values.
  pub message_query-query_params :
      (topic : Text) (s : MessagesState) (mode : Text)
      → IsRead (serializable_json_filters s.filters)
      → (q : Query) × (message_query trim_space parse_int unmarshal (page_params topic s) mode
          ≡ ok q)
        × SentFilters s.filters q
        × (has_content_filters q ≡ ltb 0 (active_filter_count s.filters))
        × (check_key trim_space quote q ≡ ok q)
        × (check_value trim_space quote q ≡ ok q)
  unfolding active_filter_count
  message_query-query_params topic s mode h =
      let q = page_query topic s mode in
      let (key, key_op, value, value_op, json) = page_query-SentFilters topic s mode in
      (
        q,
        message_query-read (serializable_json_filters s.filters) (page_params topic s) mode h
            (json-query_params topic s),
        (key, key_op, value, value_op, json),
        counts-has_content_filters _ _ (serializable_json_filters s.filters) q key value json,
        check_key-accepts _ s.filters.key_operator q key key_op,
        check_value-accepts _ s.filters.value_operator q value value_op,
      )
