-- ===== src/Server/Parsing.antt =====
-- `messageQuery`, `intQuery` and `int64Query` of internal/api/server.go: the query for messages that
-- the parameters of a request ask for. `trim_space` is `strings.TrimSpace`; `parse_int` stands for
-- `strconv.Atoi` and `strconv.ParseInt`, `unmarshal` for `json.Unmarshal` into a list of conditions.
pub mod Agreement
mod Tests
use kafka_manager.Base.{
  ℕ, ◌-◌, ◌%◌, ◌^◌, Option, none, some, [], List, ◌++◌, if◌then◌else◌, Text, codes, is_empty, ltb,
}
use kafka_manager.Base.Int.{ℤ, pos, negsuc}
use kafka_manager.SearchParams.{Params, get}
use kafka_manager.Server.{JsonFilter, Query}
use kafka_manager.Server.Validation.{Checked, failed, ok}

-- `url.Values.Get`
abbrev pub param : Text → Params → Text
param name ps = elim (get name ps) [ none ↦ [] | some v ↦ v ]

-- `int32(n)`: the low 32 bits, with the sign that the highest of them gives.
pub int32 : ℤ → ℤ
int32 (pos n) =
    if ltb (n % 2 ^ 32) (2 ^ 31) then pos (n % 2 ^ 32) else negsuc (2 ^ 32 - 1 - n % 2 ^ 32)
int32 (negsuc n) =
    if ltb (n % 2 ^ 32) (2 ^ 31) then negsuc (n % 2 ^ 32) else pos (2 ^ 32 - 1 - n % 2 ^ 32)

module _ (trim_space : Text → Text) (parse_int : Text → Option ℤ)
    (unmarshal : Text → Checked (List JsonFilter)) where
  pub int_query : Params → Text → ℤ → ℤ
  int_query ps name fallback =
      let value = trim_space (param name ps) in
      if is_empty value then fallback else elim (parse_int value) [ none ↦ fallback | some n ↦ n ]

  -- The query before the conditions on JSON are read.
  pub plain_query : Params → Text → Query
  plain_query ps mode = record {
    topic = param (codes "topic") ps;
    partition = int32 (int_query ps (codes "partition") (negsuc 0));
    mode = if is_empty mode then param (codes "mode") ps else mode;
    offset = int_query ps (codes "offset") (pos 0);
    timestamp = int_query ps (codes "timestamp") (pos 0);
    limit = int_query ps (codes "limit") (pos 100);
    scan_limit = int_query ps (codes "scanLimit") (pos 0);
    key_filter = param (codes "keyFilter") ps;
    key_operator = param (codes "keyOperator") ps;
    value_filter = param (codes "valueFilter") ps;
    value_operator = param (codes "valueOperator") ps;
    json_filters = [];
  }

  -- The mode is that of the parameters if none is given.
  pub message_query : Params → Text → Checked Query
  message_query ps mode =
      let query = plain_query ps mode in
      let raw = trim_space (param (codes "jsonFilters") ps) in
      if is_empty raw then ok query else elim (unmarshal raw) [
        | failed e ↦ failed (codes "JSON filters are invalid: " ++ e)
        | ok fs ↦ ok (record query { json_filters = fs })
      ]
