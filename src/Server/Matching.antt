-- ===== src/Server/Matching.antt =====
-- Which messages a query asks for: `matchRecord` of internal/kafka/message/filter.go and below.
-- `encoding/json` and the parsing of floating-point numbers are parameters. A number of JSON is
-- kept as its literal, as `UseNumber` asks for.
use kafka_manager.Base.{
  ℕ, ◌+◌, ◌-◌, ◌*◌, Bool, true, false, not, ◌&&◌, ◌||◌, Option, none, some, List, [], ◌∷◌, leb,
  ◌==◌, if◌then◌else◌, Text, codes, is_empty, text_eq, get_elem?,
}
use kafka_manager.Base.Search.{starts_with, includes}
use kafka_manager.Filters.JsonValue.{
  Json, null, boolean, number, string, array, object, elements, property,
}
use kafka_manager.Server.{Record, JsonFilter, Query}

-- `decode` reads a value and leaves the rest of the text; `at_end` says whether the next reading
-- finds the end. `parse_float` is `strconv.ParseFloat`, which `json.Number.Float64` is too.
pub record JsonLibrary (F : Type 0) : Type 0 where
  pub decode : Text → Option (Json × Text)
  pub at_end : Text → Bool
  pub marshal : Json → Option Text
  pub parse_float : Text → Option F
  pub equal : F → F → Bool
  pub less : F → F → Bool

pub match_text : Text → Text → Text → Bool
match_text actual expected operator =
    if text_eq operator (codes "exact")
    then text_eq actual expected
    else if text_eq operator (codes "prefix")
    then starts_with actual expected
    else includes actual expected

-- `strings.Split(path, ".")`.
abbrev prefix_first : ℕ → List Text → List Text
prefix_first c [] = (c ∷ []) ∷ []
prefix_first c (t ∷ ts) = (c ∷ t) ∷ ts

pub split_path : Text → List Text
split_path [] = [] ∷ []
split_path (c ∷ s) = let rest = split_path s in if c == b'.' then [] ∷ rest else prefix_first c rest

-- `strconv.Atoi`, where the number is not negative. A number that does not fit into an `int` is an
-- error there; here it is a number that is beyond the end of any array.
abbrev digit : ℕ → Option ℕ
digit c = if leb b'0' c && leb c b'9' then some (c - b'0') else none

abbrev digits : ℕ → Text → Option ℕ
digits n [] = some n
digits n (c ∷ s) = elim (digit c) [ none ↦ none | some d ↦ digits (n * 10 + d) s ]

abbrev unsigned : Text → Option ℕ
unsigned [] = none
unsigned (c ∷ s) = digits 0 (c ∷ s)

pub index_of : Text → Option ℕ
index_of [] = none
index_of (c ∷ s) =
    if c == b'+'
    then unsigned s
    else if c == b'-'
    then elim (unsigned s) [ some ℕ.zero ↦ some 0 | _ ↦ none ]
    else unsigned (c ∷ s)

abbrev step : Json → Text → Option Json
step (object members) segment = property segment members
step (array values) segment = elim (index_of segment) [
  | none ↦ none
  | some i ↦ get_elem? (elements values) i
]
step _ segment = none

abbrev follow : Json → List Text → Option Json
follow value [] = some value
follow value (segment ∷ rest) = elim (step value segment) [ none ↦ none | some v ↦ follow v rest ]

pub json_path : Json → Text → Option Json
json_path value path = follow value (split_path path)

-- `strconv.ParseBool`.
abbrev member_of : List Text → Text → Bool
member_of [] t = false
member_of (x ∷ xs) t = text_eq t x || member_of xs t

pub parse_bool : Text → Option Bool
parse_bool t =
    if member_of
      (codes "1" ∷ codes "t" ∷ codes "T" ∷ codes "true" ∷ codes "TRUE" ∷ codes "True" ∷ []) t
    then some true
    else if member_of
        (codes "0" ∷ codes "f" ∷ codes "F" ∷ codes "false" ∷ codes "FALSE" ∷ codes "False" ∷ []) t
    then some false
    else none

abbrev same : Bool → Bool → Bool
same true b = b
same false b = not b

module _ {F : Type 0} (library : JsonLibrary F) where
  abbrev marshalled : Json → Text
  marshalled value = elim (library.marshal value) [ some t ↦ t | none ↦ [] ]

  pub json_text : Json → Text
  json_text (string t) = t
  json_text value = marshalled value

  -- Both texts are numbers, and they stand in the relation.
  abbrev both : (F → F → Bool) → Text → Text → Bool
  both test actual expected = elim (library.parse_float actual) [
    | none ↦ false
    | some a ↦ elim (library.parse_float expected) [ none ↦ false | some e ↦ test a e ]
  ]

  pub equal_json : Json → Text → Bool
  equal_json null expected = text_eq expected (codes "null")
  equal_json (string t) expected = text_eq t expected
  equal_json (boolean b) expected = elim (parse_bool expected) [ none ↦ false | some e ↦ same b e ]
  equal_json (number n) expected = both library.equal n expected
  equal_json value expected = text_eq (json_text value) expected

  -- The tests of order; `a <= e` is less or equal, as of floating-point numbers.
  abbrev compare_by : Text → F → F → Bool
  compare_by operator a e =
      if text_eq operator (codes "gt")
      then library.less e a
      else if text_eq operator (codes "gte")
      then library.less e a || library.equal a e
      else if text_eq operator (codes "lt")
      then library.less a e
      else library.less a e || library.equal a e

  abbrev ordered : Json → JsonFilter → Bool
  ordered (number n) f = both (compare_by f.operator) n f.value
  ordered value f = false

  pub match_json : Option Json → JsonFilter → Bool
  match_json none f = false
  match_json (some v) f =
      if text_eq f.operator (codes "exists")
      then true
      else if text_eq f.operator (codes "eq")
      then equal_json v f.value
      else if text_eq f.operator (codes "neq")
      then not (equal_json v f.value)
      else if text_eq f.operator (codes "contains")
      then includes (json_text v) f.value
      else if member_of (codes "gt" ∷ codes "gte" ∷ codes "lt" ∷ codes "lte" ∷ []) f.operator
      then ordered v f
      else false

  abbrev match_all : Json → List JsonFilter → Bool
  match_all value [] = true
  match_all value (f ∷ fs) = match_json (json_path value f.path) f && match_all value fs

  -- The conditions on the value, and whether it is not JSON.
  pub match_conditions : Text → List JsonFilter → Bool × Bool
  match_conditions value [] = (true, false)
  match_conditions value (f ∷ fs) = elim (library.decode value) [
    | none ↦ (false, true)
    | some (v, rest) ↦ if library.at_end rest then (match_all v (f ∷ fs), false) else (false, true)
  ]

  abbrev rejects : Text → Text → Text → Bool
  rejects filter actual operator = not (is_empty filter) && not (match_text actual filter operator)

  pub match_record : Record → Query → Bool × Bool
  match_record r q =
      if rejects q.key_filter r.key q.key_operator
      then (false, false)
      else if rejects q.value_filter r.value q.value_operator
      then (false, false)
      else match_conditions r.value q.json_filters
