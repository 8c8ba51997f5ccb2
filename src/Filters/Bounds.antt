-- ===== src/Filters/Bounds.antt =====
-- What holds of the filters read from any address, and when an address carries none.
use kafka_manager.Base.{
  ℕ, suc, ◌≤◌, ◌≡◌, ◌↔◌, refl, Option, some, List, [], ◌∷◌, arith, Text, length, Bool-cases, ◌==◌,
  ◌&&◌, not, inl, inr, length-append, length-take, take, min, max,
}
use kafka_manager.Base.Int.{pos}
use kafka_manager.SearchParams.{Params}
use kafka_manager.Filters.JsonValue.{Json, object, array, elements}
use kafka_manager.Filters.{
  JsonOperator, Number, finite, integer, MessageFilters, clamp_scan_limit, candidate, parse_item,
  parse_items, parse_json_filters, parse_message_filters, active_filter_count, filter_query_params,
}

length-candidate :
    (i : ℕ) (p : Option Json) (o : Option JsonOperator) (v : Option Json)
    → length (candidate i p o v) ≤ 1
length-candidate i p o v = ground arith

length-parse_item : (i : ℕ) (v : Json) → length (parse_item i v) ≤ 1
unfolding parse_item
length-parse_item i (object ms) = length-candidate i _ _ _
length-parse_item i _ = omega arith

length-parse_items : (i : ℕ) (vs : List Json) → length (parse_items i vs) ≤ length vs
unfolding parse_items
length-parse_items i [] = omega arith
length-parse_items i (v ∷ vs) = omega (
  arith,
  length-append {0} (parse_item i v) (parse_items (suc i) vs),
  length-parse_item i v,
  length-parse_items (suc i) vs,
)

length-parse_json_filters : (o : Option Json) → length (parse_json_filters o) ≤ 5
unfolding parse_json_filters
length-parse_json_filters (some (array vs)) =
    omega (arith, length-parse_items 0 (take 5 (elements vs)), length-take {0} 5 (elements vs))
length-parse_json_filters _ = omega arith

-- A whole number of messages that the server accepts.
abbrev pub IsScanLimit : Number → Type 0
IsScanLimit limit = (n : ℕ) × (limit ≡ integer n) × (1 ≤ n) × (n ≤ 50000)

clamp_scan_limit-IsScanLimit : (n d : Number) → IsScanLimit d → IsScanLimit (clamp_scan_limit n d)
unfolding clamp_scan_limit
clamp_scan_limit-IsScanLimit (finite (pos n) fraction) d h =
    elim (Bool-cases (n == 0 && not fraction)) [
      | inl unset ↦ rw unset h
      | inr given ↦ rw given (min 50000 (max 1 n), refl, omega arith, omega arith)
    ]
clamp_scan_limit-IsScanLimit _ d h = h

-- Whatever the address says, and whatever `JSON.parse` and `Number` make of it, the scan limit is a
-- whole number from 1 to 50000, and there are at most five conditions.
pub parse_message_filters_bounds :
    (parse : Text → Option Json) (read_number : Text → Number) (params : Params)
    → let f = parse_message_filters parse read_number params in
      IsScanLimit f.scan_limit × (length f.json_filters ≤ 5)
unfolding parse_message_filters
parse_message_filters_bounds parse read_number params = (
  clamp_scan_limit-IsScanLimit _ _ (5000, refl, omega arith, omega arith),
  length-parse_json_filters _,
)

-- An address carries no filter exactly if the page counts none as active.
pub filter_query_params-nil_iff :
    (stringify : Json → Text) (show_number : Number → Text) (f : MessageFilters)
    → (filter_query_params stringify show_number f ≡ []) ↔ (active_filter_count f ≡ 0)
unfolding filter_query_params active_filter_count
filter_query_params-nil_iff stringify show_number f = ground arith
