-- ===== src/Server/Validation/Accepted.antt =====
-- What the server relies on once a query is accepted, and that validating it again changes nothing.
use kafka_manager.Base.{
  ◌≤◌, ◌≡◌, refl, sym, ◌∙◌, inl, inr, false, List, arith, ltb, Text, is_empty, length, Bool-cases,
  All,
}
use kafka_manager.Base.Int.{ℤ}
use kafka_manager.Server.{JsonFilter, Query, has_content_filters, exceeds, below}
use kafka_manager.Server.Validation.{
  ok, check_topic, check_partition, check_mode, clamp_limit, check_scan_limit, check_key,
  check_value, check_filters, check_json, default_scan_limit, validate_query, key_operators,
  value_operators,
}
use kafka_manager.Server.Validation.Stages.{
  IsAccepted, IsBetween, IsFilter, HasOperator, HasPartition, HasMode, bind-ok, ok_inj,
  clamp_limit-IsBetween, topic_iff, partition_iff, mode_iff, scan_limit_ok, key_ok, value_ok,
  filters_ok, IsBetween-of,
}

clamp_limit_only : (q : Query) → clamp_limit q ≡ record q { limit = (clamp_limit q).limit }
unfolding clamp_limit
clamp_limit_only q = ground arith

default_scan_limit_only :
    (q : Query) → default_scan_limit q ≡ record q { scan_limit = (default_scan_limit q).scan_limit }
unfolding default_scan_limit
default_scan_limit_only q = ground arith

scan_limit-IsBetween :
    (q : Query)
    → exceeds q.scan_limit 50000 ≡ false
    → IsBetween 1 500 q.limit
    → IsBetween 1 50000 (default_scan_limit q).scan_limit
unfolding default_scan_limit
scan_limit-IsBetween q h (n, e, low, high) = elim (Bool-cases (has_content_filters q)) [
  | inr none ↦ rw none (n, e, low, omega arith)
  | inl some ↦ elim (Bool-cases (below q.scan_limit 1)) [
    | inl default ↦ rw (some, default) (5000, refl, omega arith, omega arith)
    | inr given ↦ rw (some, given) (IsBetween-of q.scan_limit 1 50000 given h)
  ]
]

scan_limit_all :
    (q : Query) → has_content_filters q ≡ false → (default_scan_limit q).scan_limit ≡ q.limit
unfolding default_scan_limit
scan_limit_all q h = rw h

module _ (trim_space : Text → Text) (quote : Text → Text → Text)
    (trims : (s : Text) → trim_space (trim_space s) ≡ trim_space s) where
  json_ok :
      (q r : Query)
      → check_json trim_space quote q ≡ ok r
      → (fs : List JsonFilter) × (record q { json_filters = fs } ≡ r)
        × (length fs ≤ 5)
        × All (IsFilter trim_space) fs
  unfolding check_json
  json_ok q r e = elim (Bool-cases (ltb 5 (length q.json_filters))) [
    | inl many ↦ cc (rw many at e)
    | inr few ↦
        let (fs, f, g) = bind-ok (check_filters trim_space quote q.json_filters) _ (rw few at e) in
        let (same, valid) = filters_ok trim_space quote trims q.json_filters fs f in
        (fs, ok_inj g, ground (arith, same), valid)
  ]

  -- What the stages say of the query `q` that the first three let pass, and of the query `r` that
  -- the others make of it.
  stages-IsAccepted :
      (q q4 q5 q6 q7 r : Query) (l m : ℤ) (k v : Text) (fs : List JsonFilter)
      → is_empty (trim_space q.topic) ≡ false
      → HasPartition q
      → HasMode q
      → record q { limit = l } ≡ q4
      → record q4 { key_operator = k } ≡ q5
      → record q5 { value_operator = v } ≡ q6
      → record q6 { json_filters = fs } ≡ q7
      → record q7 { scan_limit = m } ≡ r
      → IsBetween 1 500 l
      → HasOperator key_operators q4.key_filter k
      → HasOperator value_operators q5.value_filter v
      → length fs ≤ 5
      → All (IsFilter trim_space) fs
      → IsBetween 1 50000 m
      → (has_content_filters q7 ≡ false → m ≡ q7.limit)
      → IsAccepted trim_space r
  stages-IsAccepted q q4 q5 q6 q7 r l m k v fs topic partition mode s4 s5 s6 s7 s8 limit key value
        few filters scan all =
      rw (sym s8, sym s7, sym s6, sym s5, sym s4)
        (record {
          topic = topic;
          partition = partition;
          mode = mode;
          limit = limit;
          scan_limit = scan;
          scan_all = rw (sym s7, sym s6, sym s5, sym s4) at all;
          key = rw (sym s4) at key;
          value = rw (sym s5, sym s4) at value;
          few = few;
          filters = filters;
        })

  passed :
      (q q1 q2 q3 q4 q5 q6 q7 r : Query)
      → check_topic trim_space quote q ≡ ok q1
      → check_partition q1 ≡ ok q2
      → check_mode trim_space quote q2 ≡ ok q3
      → check_scan_limit (clamp_limit q3) ≡ ok q4
      → check_key trim_space quote q4 ≡ ok q5
      → check_value trim_space quote q5 ≡ ok q6
      → check_json trim_space quote q6 ≡ ok q7
      → default_scan_limit q7 ≡ r
      → IsAccepted trim_space r
  passed q q1 q2 q3 q4 q5 q6 q7 r a b c d f g h e =
      let (s1, topic) = (topic_iff trim_space quote q q1).0 a in
      let (s2, partition) = (partition_iff trim_space quote q1 q2).0 b in
      let (s3, mode) = (mode_iff trim_space quote q2 q3).0 c in
      let (s4, scan) = scan_limit_ok trim_space quote (clamp_limit q3) d in
      let (k, s5, key) = key_ok trim_space quote q4 q5 f in
      let (v, s6, value) = value_ok trim_space quote q5 q6 g in
      let (fs, s7, few, filters) = json_ok q6 q7 h in
      let l4 : record q3 { limit = (clamp_limit q3).limit } ≡ q4 = sym (clamp_limit_only q3) ∙ s4 in
      let l7 : q7.limit ≡ (clamp_limit q3).limit = rw (sym s7, sym s6, sym s5, sym l4) refl in
      let scan7 : exceeds q7.scan_limit 50000 ≡ false = rw (sym s7, sym s6, sym s5) scan in
      let limit : IsBetween 1 500 (clamp_limit q3).limit = clamp_limit-IsBetween q3 in
      stages-IsAccepted q3 q4 q5 q6 q7 r _ _ k v fs (rw (sym s3, sym s2) topic)
        (rw (sym s3) partition) mode l4 s5 s6 s7 (sym (default_scan_limit_only q7) ∙ e) limit key
        value few filters (scan_limit-IsBetween q7 scan7 (rw l7 limit)) (scan_limit_all q7)

  -- If trimming a trimmed text changes nothing, then an accepted query has: a topic; a partition that
  -- is -1 or not negative; a known mode, with the offset or the time that it needs; a limit from 1
  -- to 500; a scan limit from 1 to 50000, which is the limit if there are no conditions on the
  -- contents; known operators for the filters in use; and at most five conditions on JSON, each with
  -- a trimmed path that is not empty and with a known operator.
  pub validate_query-IsAccepted :
      (q r : Query) → validate_query trim_space quote q ≡ ok r → IsAccepted trim_space r
  unfolding validate_query
  validate_query-IsAccepted q r e0 =
      let (q1, a, e1) = bind-ok (check_topic trim_space quote q) _ e0 in
      let (q2, b, e2) = bind-ok (check_partition q1) _ e1 in
      let (q3, c, e3) = bind-ok (check_mode trim_space quote q2) _ e2 in
      let (q4, d, e4) = bind-ok (check_scan_limit (clamp_limit q3)) _ e3 in
      let (q5, f, e5) = bind-ok (check_key trim_space quote q4) _ e4 in
      let (q6, g, e6) = bind-ok (check_value trim_space quote q5) _ e5 in
      let (q7, h, e7) = bind-ok (check_json trim_space quote q6) _ e6 in
      passed q q1 q2 q3 q4 q5 q6 q7 r a b c d f g h (ok_inj e7)
