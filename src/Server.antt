-- ===== src/Server.antt =====
-- internal/kafka/message of the server, in Go: the validation of a query for messages (service.go)
-- and the selection of the messages that answer it (filter.go). A string is the list of its bytes.
pub mod Validation
pub mod Matching
pub mod Collector
pub mod Parsing
pub mod Auth
mod Tests
use kafka_manager.Base.{
  ℕ, Bool, true, false, not, ◌||◌, Option, none, some, List, [], ◌∷◌, ltb, leb, Text, is_empty,
}
use kafka_manager.Base.Int.{ℤ, pos, negsuc}
use kafka_manager.Types.{Header}

-- `int32`, `int64` and `int` are integers here: the code compares them, and only counts with them
-- up to the scan limit.
pub record Record : Type 0 where
  pub topic : Text
  pub partition : ℤ
  pub offset : ℤ
  pub timestamp : ℤ
  pub key : Text
  pub value : Text
  pub headers : List Header

pub record JsonFilter : Type 0 where
  pub path : Text
  pub operator : Text
  pub value : Text

pub record Query : Type 0 where
  pub topic : Text
  pub partition : ℤ
  pub mode : Text
  pub offset : ℤ
  pub timestamp : ℤ
  pub limit : ℤ
  pub scan_limit : ℤ
  pub key_filter : Text
  pub key_operator : Text
  pub value_filter : Text
  pub value_operator : Text
  pub json_filters : List JsonFilter

pub record QueryResult : Type 0 where
  pub items : List Record
  pub scanned : ℕ
  pub matched : ℕ
  pub skipped_invalid_json : ℕ
  pub result_limited : Bool
  pub scan_limited : Bool

abbrev pub is_nil {ℓ} : {A : Type ℓ} → List A → Bool
is_nil [] = true
is_nil (x ∷ xs) = false

abbrev pub has_content_filters : Query → Bool
has_content_filters q =
    not (is_empty q.key_filter) || (not (is_empty q.value_filter) || not (is_nil q.json_filters))

-- `n >= z`, `z > n` and `z < n` for a count `n`.
abbrev pub at_least : ℕ → ℤ → Bool
at_least n (pos k) = leb k n
at_least n (negsuc k) = true

abbrev pub exceeds : ℤ → ℕ → Bool
exceeds (pos k) n = ltb n k
exceeds (negsuc k) n = false

abbrev pub below : ℤ → ℕ → Bool
below (pos k) n = ltb k n
below (negsuc k) n = true
