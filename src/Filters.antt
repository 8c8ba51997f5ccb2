-- ===== src/Filters.antt =====
-- web/src/pages/message-filters.ts: the message filters and their form in an address.
-- The host's `JSON.parse`, `JSON.stringify`, `Number` and `String` are parameters.
pub mod JsonValue
pub mod Entries
pub mod Sharing
pub mod Bounds
mod Tests
use mathlib.Core.Option
use kafka_manager.Base.{
  ℕ, suc, ◌+◌, Bool, true, false, not, ◌&&◌, ◌||◌, Option, none, some, List, [], ◌∷◌, ◌++◌, map,
  if◌then◌else◌, Text, codes, is_empty, text_eq, filter, length, take, min, max,
}
use kafka_manager.Base.Int.{ℤ, pos, negsuc, is_positive, is_zero}
use kafka_manager.Base.Decimal.{decimal}
use kafka_manager.Base.Search.{trim}
use kafka_manager.Filters.JsonValue.{
  Json, string, array, object, Members, member, end, elements, elements_of, property,
}
use kafka_manager.SearchParams.{Params, get, delete_all, set_all}

pub data KeyOperator : Type 0 where
  contains exact prefix : KeyOperator

pub data ValueOperator : Type 0 where
  contains exact : ValueOperator

pub data JsonOperator : Type 0 where
  eq neq contains exists gt gte lt lte : JsonOperator

pub record JsonFilterCondition : Type 0 where
  pub id : Text
  pub path : Text
  pub operator : JsonOperator
  pub value : Text

-- A number of the host: a finite one by its floor and whether it has a fraction.
pub data Number : Type 0 where
  nan infinity minus_infinity : Number
  finite : ℤ → Bool → Number

pub record MessageFilters : Type 0 where
  pub key_filter : Text
  pub key_operator : KeyOperator
  pub value_filter : Text
  pub value_operator : ValueOperator
  pub scan_limit : Number
  pub json_filters : List JsonFilterCondition

abbrev pub integer : ℕ → Number
integer n = finite (pos n) false

unfoldable pub default_filters : MessageFilters
default_filters = record {
  key_filter = [];
  key_operator = KeyOperator.contains;
  value_filter = [];
  value_operator = ValueOperator.contains;
  scan_limit = integer 5000;
  json_filters = [];
}

abbrev pub key_operator_name : KeyOperator → Text
key_operator_name KeyOperator.contains = codes "contains"
key_operator_name KeyOperator.exact = codes "exact"
key_operator_name prefix = codes "prefix"

abbrev pub value_operator_name : ValueOperator → Text
value_operator_name ValueOperator.contains = codes "contains"
value_operator_name ValueOperator.exact = codes "exact"

abbrev pub json_operator_name : JsonOperator → Text
json_operator_name eq = codes "eq"
json_operator_name neq = codes "neq"
json_operator_name JsonOperator.contains = codes "contains"
json_operator_name exists = codes "exists"
json_operator_name gt = codes "gt"
json_operator_name gte = codes "gte"
json_operator_name lt = codes "lt"
json_operator_name lte = codes "lte"

-- The member of a list of operators with a given name, as `includes` and the cast find it.
abbrev named {ℓ} : {A : Type ℓ} → (A → Text) → List A → Text → Option A
named name [] s = none
named name (a ∷ as') s = if text_eq s (name a) then some a else named name as' s

pub key_operators : List KeyOperator
key_operators = KeyOperator.contains ∷ KeyOperator.exact ∷ prefix ∷ []

pub value_operators : List ValueOperator
value_operators = ValueOperator.contains ∷ ValueOperator.exact ∷ []

pub json_operators : List JsonOperator
json_operators = eq ∷ neq ∷ JsonOperator.contains ∷ exists ∷ gt ∷ gte ∷ lt ∷ lte ∷ []

pub filter_param_names : List Text
filter_param_names =
    codes "keyFilter"
    ∷ codes "keyOperator"
    ∷ codes "valueFilter"
    ∷ codes "valueOperator"
    ∷ codes "scanLimit"
    ∷ codes "jsonFilters"
    ∷ []

-- What is sent of a condition.
pub record SentCondition : Type 0 where
  pub path : Text
  pub operator : JsonOperator
  pub value : Text

unfoldable pub serializable_json_filters : MessageFilters → List SentCondition
serializable_json_filters filters =
    map (λ c. record { path = trim c.path; operator = c.operator; value = c.value })
      (filter (λ c. not (is_empty (trim c.path))) filters.json_filters)

abbrev count_filled : Text → ℕ
count_filled s = if is_empty s then 0 else 1

unfoldable pub active_filter_count : MessageFilters → ℕ
active_filter_count filters =
    count_filled (trim filters.key_filter)
    + count_filled (trim filters.value_filter)
    + length (serializable_json_filters filters)

abbrev pub is_nil {ℓ} : {A : Type ℓ} → List A → Bool
is_nil [] = true
is_nil (x ∷ xs) = false

abbrev pub sent_json : SentCondition → Json
sent_json c = object (
    member (codes "path") (string c.path) (
      member (codes "operator") (string (json_operator_name c.operator))
        (member (codes "value") (string c.value) end)))

abbrev pub sent_array : List SentCondition → Json
sent_array cs = array (elements_of (map sent_json cs))

module _ (stringify : Json → Text) (show_number : Number → Text) where
  -- The entries of the record, in the order in which they are written.
  unfoldable pub filter_query_params : MessageFilters → List (Text × Text)
  filter_query_params filters =
      let key = trim filters.key_filter in
      let value = trim filters.value_filter in
      let json_filters = serializable_json_filters filters in
      (if is_empty key
        then []
        else (codes "keyFilter", key)
          ∷ (codes "keyOperator", key_operator_name filters.key_operator)
          ∷ [])
      ++ ((if is_empty value
            then []
            else (codes "valueFilter", value)
              ∷ (codes "valueOperator", value_operator_name filters.value_operator)
              ∷ [])
          ++ ((if is_nil json_filters
                then []
                else (codes "jsonFilters", stringify (sent_array json_filters)) ∷ [])
              ++ (if is_empty key && is_empty value && is_nil json_filters
                  then []
                  else (codes "scanLimit", show_number filters.scan_limit) ∷ [])))

  pub replace_message_filter_params : Params → MessageFilters → Params
  replace_message_filter_params current filters =
      set_all (filter_query_params filters) (delete_all filter_param_names current)

abbrev or_empty : Option Text → Text
or_empty none = []
or_empty (some s) = s

abbrev or_else {ℓ} : {A : Type ℓ} → Option A → A → A
or_else none d = d
or_else (some a) d = a

-- `Number.isFinite(n) && n > 0`, then `Math.min(50000, Math.max(1, Math.floor(n)))`.
pub clamp_scan_limit : Number → Number → Number
clamp_scan_limit (finite (pos n) fraction) d =
    if is_zero (pos n) && not fraction then d else integer (min 50000 (max 1 n))
clamp_scan_limit _ d = d

-- An operator that is no string is in no list of operators.
abbrev operator_of : Option Json → Option JsonOperator
operator_of (some (string s)) = named json_operator_name json_operators s
operator_of _ = none

abbrev string_or_empty : Option Json → Text
string_or_empty (some (string s)) = s
string_or_empty _ = []

abbrev candidate : ℕ → Option Json → Option JsonOperator → Option Json → List JsonFilterCondition
candidate index (some (string path)) (some operator) value =
    record {
      id = codes "url-" ++ decimal index;
      path = path;
      operator = operator;
      value = string_or_empty value;
    }
    ∷ []
candidate index _ _ value = []

-- The body of the `flatMap`. An array is an object without these properties.
pub parse_item : ℕ → Json → List JsonFilterCondition
unfolding json_operators
parse_item index (object ms) =
    candidate index (property (codes "path") ms) (operator_of (property (codes "operator") ms))
      (property (codes "value") ms)
parse_item index _ = []

pub parse_items : ℕ → List Json → List JsonFilterCondition
parse_items index [] = []
parse_items index (v ∷ vs) = parse_item index v ++ parse_items (suc index) vs

-- `Array.isArray`, and an empty list for a text that is no JSON.
pub parse_json_filters : Option Json → List JsonFilterCondition
parse_json_filters (some (array vs)) = parse_items 0 (take 5 (elements vs))
parse_json_filters _ = []

module _ (parse : Text → Option Json) (read_number : Text → Number) where
  -- `Number(null)` is 0.
  abbrev number_param : Option Text → Number
  number_param none = integer 0
  number_param (some s) = read_number s

  pub parse_message_filters : Params → MessageFilters
  unfolding key_operators value_operators
  parse_message_filters params =
      let json_text = or_empty (get (codes "jsonFilters") params) in
      record {
        key_filter = or_empty (get (codes "keyFilter") params);
        key_operator =
            or_else
              (Option.bind (get (codes "keyOperator") params)
                (named key_operator_name key_operators))
              KeyOperator.contains;
        value_filter = or_empty (get (codes "valueFilter") params);
        value_operator =
            or_else
              (Option.bind (get (codes "valueOperator") params)
                (named value_operator_name value_operators))
              ValueOperator.contains;
        scan_limit =
            clamp_scan_limit (number_param (get (codes "scanLimit") params)) (integer 5000);
        json_filters =
            parse_json_filters (parse (if is_empty json_text then codes "[]" else json_text));
      }
