-- ===== src/Server/Tests.antt =====
-- The theorems on queries for messages at concrete queries and records.
use kafka_manager.Base.{
  ℕ, ◌≡◌, refl, false, none, some, List, [], ◌∷◌, ◌++◌, arith, Text, codes, is_empty, take, filter,
  if◌then◌else◌, ◌==◌, Bool-cases, inl, inr,
}
use kafka_manager.Base.Int.{pos, negsuc}
use kafka_manager.Filters.JsonValue.{string}
use kafka_manager.Server.{Record, Query}
use kafka_manager.Server.Validation.{
  ok, validate_query, default_scan_limit, check_topic, check_partition, check_mode, clamp_limit,
  check_scan_limit, check_key, check_value, check_json, check_filters, check_filter,
}
use kafka_manager.Server.Validation.Stages.{IsAccepted}
use kafka_manager.Server.Validation.Accepted.{validate_query-IsAccepted}
use kafka_manager.Server.Validation.Again.{validate_query-validate_query}
use kafka_manager.Server.Matching.{JsonLibrary, match_record}
use kafka_manager.Server.Collector.{fetch}
use kafka_manager.Server.Collector.Newest.{IsAnswer, fetch-IsAnswer}
use kafka_manager.Server.Collector.First.{fetch-items}

-- Only spaces in front are trimmed.
abbrev drop_spaces : Text → Text
drop_spaces [] = []
drop_spaces (c ∷ s) = let rest = drop_spaces s in if c == 32 then rest else c ∷ s

drop_spaces-drop_spaces : (s : Text) → drop_spaces (drop_spaces s) ≡ drop_spaces s
drop_spaces-drop_spaces [] = refl
drop_spaces-drop_spaces (c ∷ s) = elim (Bool-cases (c == 32)) [
  | inl space ↦ rw space (drop_spaces-drop_spaces s)
  | inr other ↦ ground (arith, other)
]

abbrev quote : Text → Text → Text
quote message value = message ++ value

abbrev by_key : Query
by_key = record {
  topic = codes "orders";
  partition = negsuc 0;
  mode = codes "latest";
  offset = pos 0;
  timestamp = pos 0;
  limit = pos 0;
  scan_limit = pos 0;
  key_filter = codes "match";
  key_operator = [];
  value_filter = [];
  value_operator = [];
  json_filters = record { path = codes " id"; operator = []; value = codes "7" } ∷ [];
}

abbrev accepted : Query
accepted = record by_key {
  limit = pos 100;
  scan_limit = pos 5000;
  key_operator = codes "contains";
  json_filters = record { path = codes "id"; operator = codes "eq"; value = codes "7" } ∷ [];
}

by_key-accepted : validate_query drop_spaces quote by_key ≡ ok accepted
unfolding validate_query check_topic check_partition check_mode clamp_limit check_scan_limit
    check_key check_value check_json check_filters check_filter default_scan_limit
by_key-accepted = refl

validate_query-IsAccepted_example : IsAccepted drop_spaces accepted
validate_query-IsAccepted_example =
    validate_query-IsAccepted drop_spaces quote drop_spaces-drop_spaces by_key accepted
      by_key-accepted

validate_query-validate_query_example :
    let stream : Query = record accepted { limit = pos 500 } in
    (validate_query drop_spaces quote accepted ≡ ok accepted)
    × (validate_query drop_spaces quote stream ≡ ok (default_scan_limit stream))
validate_query-validate_query_example =
    validate_query-validate_query drop_spaces quote drop_spaces-drop_spaces by_key accepted
      by_key-accepted

-- Every text is a string of JSON, and no text is a number.
abbrev strings : JsonLibrary ℕ
strings = record {
  decode = λ t. some (string t, []);
  at_end = is_empty;
  marshal = λ v. none;
  parse_float = λ t. none;
  equal = λ a b. a == b;
  less = λ a b. false;
}

abbrev by_key_only : Query
by_key_only = record accepted { limit = pos 2; scan_limit = pos 5; json_filters = [] }

abbrev at_time : ℕ → Text → Record
at_time n key = record {
  topic = codes "orders";
  partition = pos 0;
  offset = pos n;
  timestamp = pos n;
  key = key;
  value = codes "x";
  headers = [];
}

abbrev log : List Record
log =
    at_time 4 (codes "match")
    ∷ at_time 1 (codes "a match")
    ∷ at_time 2 (codes "other")
    ∷ at_time 7 (codes "matches")
    ∷ at_time 3 (codes "match")
    ∷ at_time 9 (codes "match")
    ∷ []

fetch-IsAnswer_example :
    IsAnswer 2
      (filter (λ r. (match_record strings r by_key_only).0) (take 5 log))
      (fetch strings by_key_only log)
fetch-IsAnswer_example = fetch-IsAnswer strings by_key_only 2 5 refl refl (omega arith) refl log

abbrev earliest : Query
earliest = record by_key_only { mode = codes "earliest" }

fetch-items_example :
    (fetch strings earliest log).items
    ≡ take 2 (filter (λ r. (match_record strings r earliest).0) (take 5 log))
fetch-items_example = fetch-items strings earliest 2 5 refl refl refl log
