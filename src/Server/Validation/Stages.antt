-- ===== src/Server/Validation/Stages.antt =====
-- What each stage of the validation checks, and what it leaves alone.
use kafka_manager.Base.{
  ℕ, ◌≤◌, ◌≡◌, refl, sym, ◌⊎◌, inl, inr, true, false, List, [], ◌∷◌, arith, Text, codes, is_empty,
  text_eq_iff, ◌↔◌, length, Bool-cases, All,
}
use kafka_manager.Base.Int.{ℤ, pos, negsuc}
use kafka_manager.Server.{JsonFilter, Query, has_content_filters, exceeds, below}
use kafka_manager.Server.Validation.{
  Checked, failed, ok, ◌>>=◌, one_of, key_operators, value_operators, json_operators, or_default,
  check_topic, check_partition, check_mode, clamp_limit, check_scan_limit, check_key, check_value,
  check_filter, check_filters,
}

module _ {A B : Type 0} where
  pub bind-ok :
      (m : Checked A) (f : A → Checked B) {b : B}
      → (m >>= f) ≡ ok b
      → (a : A) × (m ≡ ok a) × (f a ≡ ok b)
  bind-ok (failed e) f h = cc
  bind-ok (ok a) f h = (a, refl, h)

pub ok_inj : {A : Type 0} {a b : A} → ok a ≡ ok b → a ≡ b
ok_inj e = cc

-- The partition is -1, for all of them, or not negative.
abbrev pub HasPartition : Query → Type 0
HasPartition q = (below q.partition 0 ≡ false) ⊎ (q.partition ≡ negsuc 0)

-- The mode is known, and comes with the offset or the time that it needs.
abbrev pub HasMode : Query → Type 0
HasMode q =
    (one_of (codes "earliest" ∷ codes "latest" ∷ codes "live" ∷ []) q.mode ≡ true)
    ⊎ ((q.mode ≡ codes "offset") × (below q.offset 0 ≡ false))
    ⊎ ((q.mode ≡ codes "timestamp") × (exceeds q.timestamp 0 ≡ true))

abbrev pub IsBetween : ℕ → ℕ → ℤ → Type 0
IsBetween low high z = (n : ℕ) × (z ≡ pos n) × (low ≤ n) × (n ≤ high)

-- A filter that is not empty has a known operator.
abbrev pub HasOperator : List Text → Text → Text → Type 0
HasOperator known filter operator = (is_empty filter ≡ true) ⊎ (one_of known operator ≡ true)

module _ (trim_space : Text → Text) where
  -- The path of a condition is trimmed and not empty, and its operator is known.
  abbrev pub IsFilter : JsonFilter → Type 0
  IsFilter f =
      (trim_space f.path ≡ f.path)
      × (is_empty f.path ≡ false)
      × (one_of json_operators f.operator ≡ true)

  -- What the rest of the server relies on.
  pub record IsAccepted (q : Query) : Type 0 where
    pub topic : is_empty (trim_space q.topic) ≡ false
    pub partition : HasPartition q
    pub mode : HasMode q
    pub limit : IsBetween 1 500 q.limit
    pub scan_limit : IsBetween 1 50000 q.scan_limit
    pub scan_all : has_content_filters q ≡ false → q.scan_limit ≡ q.limit
    pub key : HasOperator key_operators q.key_filter q.key_operator
    pub value : HasOperator value_operators q.value_filter q.value_operator
    pub few : length q.json_filters ≤ 5
    pub filters : All IsFilter q.json_filters

-- A known operator is not empty, so it is not replaced.
known_default :
    (known : List Text) (operator d : Text)
    → one_of known [] ≡ false
    → one_of known operator ≡ true
    → or_default operator d ≡ operator
known_default known [] d h e = cc
known_default known (c ∷ s) d h e = refl

pub IsBetween-of :
    (z : ℤ) (low high : ℕ) → below z low ≡ false → exceeds z high ≡ false → IsBetween low high z
IsBetween-of (pos n) low high h g = (n, refl, ground arith, ground arith)
IsBetween-of (negsuc n) low high h g = cc

pub clamp_limit-IsBetween : (q : Query) → IsBetween 1 500 (clamp_limit q).limit
unfolding clamp_limit
clamp_limit-IsBetween q = elim (Bool-cases (below q.limit 1)) [
  | inl low ↦ rw low (100, refl, omega arith, omega arith)
  | inr h ↦ elim (Bool-cases (exceeds q.limit 500)) [
    | inl high ↦ rw (h, high) (500, refl, omega arith, omega arith)
    | inr g ↦ rw (h, g) (IsBetween-of q.limit 1 500 h g)
  ]
]

module _ (trim_space : Text → Text) (quote : Text → Text → Text) where
  pub topic_iff :
      (q r : Query)
      → (check_topic trim_space quote q ≡ ok r)
        ↔ ((q ≡ r) × (is_empty (trim_space r.topic) ≡ false))
  unfolding check_topic
  topic_iff q r = ground arith

  pub partition_iff : (q r : Query) → (check_partition q ≡ ok r) ↔ ((q ≡ r) × HasPartition r)
  unfolding check_partition
  partition_iff q r = ground arith

  pub mode_iff : (q r : Query) → (check_mode trim_space quote q ≡ ok r) ↔ ((q ≡ r) × HasMode r)
  unfolding check_mode
  mode_iff q r =
      ground (arith, text_eq_iff q.mode (codes "offset"), text_eq_iff q.mode (codes "timestamp"))

  pub scan_limit_ok :
      (q : Query) {r : Query}
      → check_scan_limit q ≡ ok r
      → (q ≡ r) × (exceeds r.scan_limit 50000 ≡ false)
  unfolding check_scan_limit
  scan_limit_ok q e = ground arith

  pub key_ok :
      (q r : Query)
      → check_key trim_space quote q ≡ ok r
      → (operator : Text) × (record q { key_operator = operator } ≡ r)
        × HasOperator key_operators q.key_filter operator
  unfolding check_key
  key_ok q r e = elim (Bool-cases (is_empty q.key_filter)) [
    | inl h ↦ (q.key_operator, ground arith, inl h)
    | inr h ↦ (or_default q.key_operator (codes "contains"), ground arith, ground arith)
  ]

  pub key_again :
      (q : Query)
      → HasOperator key_operators q.key_filter q.key_operator
      → check_key trim_space quote q ≡ ok q
  unfolding check_key
  key_again q (inl h) = rw h
  key_again q (inr h) =
      ground (arith, known_default key_operators q.key_operator (codes "contains") refl h)

  pub value_ok :
      (q r : Query)
      → check_value trim_space quote q ≡ ok r
      → (operator : Text) × (record q { value_operator = operator } ≡ r)
        × HasOperator value_operators q.value_filter operator
  unfolding check_value
  value_ok q r e = elim (Bool-cases (is_empty q.value_filter)) [
    | inl h ↦ (q.value_operator, ground arith, inl h)
    | inr h ↦ (or_default q.value_operator (codes "contains"), ground arith, ground arith)
  ]

  pub value_again :
      (q : Query)
      → HasOperator value_operators q.value_filter q.value_operator
      → check_value trim_space quote q ≡ ok q
  unfolding check_value
  value_again q (inl h) = rw h
  value_again q (inr h) =
      ground (arith, known_default value_operators q.value_operator (codes "contains") refl h)

  module _ (trims : (s : Text) → trim_space (trim_space s) ≡ trim_space s) where
    IsFilter-ok :
        (f g : JsonFilter) → check_filter trim_space quote f ≡ ok g → IsFilter trim_space g
    unfolding check_filter
    IsFilter-ok f g e = ground (arith, trims f.path)

    filter_again : (f : JsonFilter) → IsFilter trim_space f → check_filter trim_space quote f ≡ ok f
    unfolding check_filter
    filter_again f h = ground (arith, known_default json_operators f.operator (codes "eq") refl h.2)

    pub filters_ok :
        (fs gs : List JsonFilter)
        → check_filters trim_space quote fs ≡ ok gs
        → (length gs ≡ length fs) × All (IsFilter trim_space) gs
    unfolding check_filters
    filters_ok [] gs e = rw (sym (ok_inj e)) (refl, tt)
    filters_ok (f ∷ fs) gs e =
        let (g, one, more) = bind-ok (check_filter trim_space quote f) _ e in
        let (rest, others, all) = bind-ok (check_filters trim_space quote fs) _ more in
        let (same, valid) = filters_ok fs rest others in
        rw (sym (ok_inj all)) (omega (arith, same), (IsFilter-ok f g one, valid))

    pub filters_again :
        (fs : List JsonFilter)
        → All (IsFilter trim_space) fs
        → check_filters trim_space quote fs ≡ ok fs
    unfolding check_filters
    filters_again [] h = refl
    filters_again (f ∷ fs) h = rw (filter_again f h.0, filters_again fs h.1)
