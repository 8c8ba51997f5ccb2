-- ===== src/Server/Validation.antt =====
-- `validateQuery` of internal/kafka/message/service.go. The texts of the errors that quote a value
-- are left to `quote`, which stands for `fmt.Errorf` with `%q`; `trim_space` is `strings.TrimSpace`.
pub mod Stages
pub mod Accepted
pub mod Again
use kafka_manager.Base.{
  ℕ, Bool, true, false, not, ◌&&◌, ◌||◌, List, [], ◌∷◌, ltb, if◌then◌else◌, Text, codes, is_empty,
  text_eq, length,
}
use kafka_manager.Base.Int.{ℤ, pos, negsuc}
use kafka_manager.Server.{JsonFilter, Query, has_content_filters, exceeds, below}

-- A value, or an error.
pub data Checked (A : Type 0) : Type 0 where
  failed : Text → Checked A
  ok : A → Checked A

infixl 20 ◌>>=◌
abbrev pub ◌>>=◌ : {A B : Type 0} → Checked A → (A → Checked B) → Checked B
failed e >>= f = failed e
ok a >>= f = f a

abbrev pub one_of : List Text → Text → Bool
one_of [] t = false
one_of (x ∷ xs) t = text_eq t x || one_of xs t

abbrev pub key_operators : List Text
key_operators = codes "contains" ∷ codes "exact" ∷ codes "prefix" ∷ []

abbrev pub value_operators : List Text
value_operators = codes "contains" ∷ codes "exact" ∷ []

abbrev pub json_operators : List Text
json_operators =
    codes "eq"
    ∷ codes "neq"
    ∷ codes "contains"
    ∷ codes "exists"
    ∷ codes "gt"
    ∷ codes "gte"
    ∷ codes "lt"
    ∷ codes "lte"
    ∷ []

abbrev pub or_default : Text → Text → Text
or_default t d = if is_empty t then d else t

unfoldable pub check_partition : Query → Checked Query
check_partition q = elim q.partition [
  | pos n ↦ ok q
  | negsuc n ↦ if ltb 0 n then failed (codes "partition is invalid") else ok q
]

unfoldable pub clamp_limit : Query → Query
clamp_limit q =
    if below q.limit 1
    then record q { limit = pos 100 }
    else if exceeds q.limit 500
    then record q { limit = pos 500 }
    else q

unfoldable pub check_scan_limit : Query → Checked Query
check_scan_limit q =
    if exceeds q.scan_limit 50000 then failed (codes "scan limit must not exceed 50000") else ok q

unfoldable pub default_scan_limit : Query → Query
default_scan_limit q =
    if has_content_filters q
    then (if below q.scan_limit 1 then record q { scan_limit = pos 5000 } else q)
    else record q { scan_limit = q.limit }

module _ (trim_space : Text → Text) (quote : Text → Text → Text) where
  unfoldable pub check_topic : Query → Checked Query
  check_topic q = if is_empty (trim_space q.topic) then failed (codes "topic is required") else ok q

  unfoldable pub check_mode : Query → Checked Query
  check_mode q =
      if one_of (codes "earliest" ∷ codes "latest" ∷ codes "live" ∷ []) q.mode
      then ok q
      else if text_eq q.mode (codes "offset")
      then (if below q.offset 0 then failed (codes "offset must not be negative") else ok q)
      else if text_eq q.mode (codes "timestamp")
      then (if exceeds q.timestamp 0 then ok q else failed (codes "timestamp is required"))
      else failed (quote (codes "unsupported query mode %q") q.mode)

  unfoldable pub check_key : Query → Checked Query
  check_key q =
      if is_empty q.key_filter
      then ok q
      else let operator = or_default q.key_operator (codes "contains") in
        if one_of key_operators operator
        then ok (record q { key_operator = operator })
        else failed (quote (codes "unsupported key operator %q") operator)

  unfoldable pub check_value : Query → Checked Query
  check_value q =
      if is_empty q.value_filter
      then ok q
      else let operator = or_default q.value_operator (codes "contains") in
        if one_of value_operators operator
        then ok (record q { value_operator = operator })
        else failed (quote (codes "unsupported value operator %q") operator)

  unfoldable pub check_filter : JsonFilter → Checked JsonFilter
  check_filter f =
      let path = trim_space f.path in
      if is_empty path
      then failed (codes "JSON filter path is required")
      else let operator = or_default f.operator (codes "eq") in
        if one_of json_operators operator
        then ok (record f { path = path; operator = operator })
        else failed (quote (codes "unsupported JSON operator %q") operator)

  -- The loop over the conditions, which stops at the first error.
  unfoldable pub check_filters : List JsonFilter → Checked (List JsonFilter)
  check_filters [] = ok []
  check_filters (f ∷ fs) = check_filter f >>= λ g. check_filters fs >>= λ gs. ok (g ∷ gs)

  unfoldable pub check_json : Query → Checked Query
  check_json q =
      if ltb 5 (length q.json_filters)
      then failed (codes "at most 5 JSON filters are allowed")
      else check_filters q.json_filters >>= λ fs. ok (record q { json_filters = fs })

  unfoldable pub validate_query : Query → Checked Query
  validate_query q = check_topic q >>= λ q. check_partition q >>= λ q. check_mode q >>= λ q.
      check_scan_limit (clamp_limit q) >>= λ q.
      check_key q >>= λ q. check_value q >>= λ q. check_json q >>= λ q. ok (default_scan_limit q)
