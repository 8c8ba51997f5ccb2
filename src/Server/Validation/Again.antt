-- ===== src/Server/Validation/Again.antt =====
-- What becomes of a query that is validated again: the stream of messages validates its query, sets
-- the limit to 500 (`streamMessages` of internal/api/server.go), and validates it again.
use kafka_manager.Base.{
  ℕ, ◌≤◌, ◌≡◌, refl, sym, ◌∙◌, ap, inl, inr, false, arith, ltb, Text, length, Bool-cases, All,
}
use kafka_manager.Base.Int.{ℤ, pos}
use kafka_manager.Server.{Query, has_content_filters, exceeds, below}
use kafka_manager.Server.Validation.{
  ok, clamp_limit, check_scan_limit, check_json, default_scan_limit, validate_query,
}
use kafka_manager.Server.Validation.Stages.{
  IsAccepted, IsBetween, IsFilter, topic_iff, partition_iff, mode_iff, key_again, value_again,
  filters_again,
}
use kafka_manager.Server.Validation.Accepted.{validate_query-IsAccepted}

between_not :
    (z : ℤ) (low high : ℕ) → IsBetween low high z → (below z low ≡ false) × (exceeds z high ≡ false)
between_not z low high (n, e, l, h) = rw e (ground arith, ground arith)

clamp_limit_again : (q : Query) → IsBetween 1 500 q.limit → clamp_limit q ≡ q
unfolding clamp_limit
clamp_limit_again q h = let (a, b) = between_not q.limit 1 500 h in rw (a, b)

check_scan_limit_again : (q : Query) → IsBetween 1 50000 q.scan_limit → check_scan_limit q ≡ ok q
unfolding check_scan_limit
check_scan_limit_again q h = rw (between_not q.scan_limit 1 50000 h).1

default_scan_limit_again :
    (q : Query)
    → IsBetween 1 50000 q.scan_limit
    → (has_content_filters q ≡ false → q.scan_limit ≡ q.limit)
    → default_scan_limit q ≡ q
unfolding default_scan_limit
default_scan_limit_again q h all = elim (Bool-cases (has_content_filters q)) [
  | inl some ↦ rw (some, (between_not q.scan_limit 1 50000 h).0)
  | inr none ↦ rw (none, sym (all none))
]

module _ (trim_space : Text → Text) (quote : Text → Text → Text)
    (trims : (s : Text) → trim_space (trim_space s) ≡ trim_space s) where
  json_again :
      (q : Query)
      → length q.json_filters ≤ 5
      → All (IsFilter trim_space) q.json_filters
      → check_json trim_space quote q ≡ ok q
  unfolding check_json
  json_again q few filters =
      let within : ltb 5 (length q.json_filters) ≡ false = ground arith in
      rw (within, filters_again trim_space quote trims q.json_filters filters)

  -- An accepted query with any other limit that is allowed.
  validate_query-limit :
      (q : Query) (n : ℤ)
      → IsAccepted trim_space q
      → IsBetween 1 500 n
      → let other : Query = record q { limit = n } in
        validate_query trim_space quote other ≡ ok (default_scan_limit other)
  unfolding validate_query
  validate_query-limit q n a h =
      let other : Query = record q { limit = n } in
      rw (
        (topic_iff trim_space quote other other).1 (refl, a.topic),
        (partition_iff trim_space quote other other).1 (refl, a.partition),
        (mode_iff trim_space quote other other).1 (refl, a.mode),
        clamp_limit_again other h,
        check_scan_limit_again other a.scan_limit,
        key_again trim_space quote other a.key,
        value_again trim_space quote other a.value,
        json_again other a.few a.filters,
      )

  -- A query that was accepted is accepted again as it is; and so is it with the limit of a stream,
  -- but for the scan limit, which follows the limit if there are no conditions on the contents. It
  -- is taken that trimming a trimmed text changes nothing.
  pub validate_query-validate_query :
      (q r : Query)
      → validate_query trim_space quote q ≡ ok r
      → let stream : Query = record r { limit = pos 500 } in
        (validate_query trim_space quote r ≡ ok r)
        × (validate_query trim_space quote stream ≡ ok (default_scan_limit stream))
  validate_query-validate_query q r e =
      let a : IsAccepted trim_space r = validate_query-IsAccepted trim_space quote trims q r e in
      (
        validate_query-limit r r.limit a a.limit
            ∙ ap ok (default_scan_limit_again r a.scan_limit a.scan_all),
        validate_query-limit r (pos 500) a (500, refl, omega arith, omega arith),
      )
