-- ===== src/Filters/Entries.antt =====
-- The parameters that carry filters, one by one.
use mathlib.Core.Option
use kafka_manager.Base.{
  ℕ, suc, zero, ◌≡◌, refl, true, false, Bool, ◌&&◌, Option, none, some, List, [], ◌∷◌, ◌++◌, map,
  arith, if◌then◌else◌, Text, codes, take, is_empty, ap,
}
use kafka_manager.Base.Decimal.{decimal}
use kafka_manager.SearchParams.Laws.{or_option, last_value}
use kafka_manager.Filters.JsonValue.{Json, string, elements, elements_of}
use kafka_manager.Filters.{
  KeyOperator, ValueOperator, JsonOperator, eq, prefix, key_operator_name, value_operator_name,
  json_operator_name, key_operators, value_operators, json_operators, JsonFilterCondition, Number,
  integer, SentCondition, sent_json, sent_array, or_empty, or_else, named, clamp_scan_limit,
  operator_of, parse_item, parse_items, parse_json_filters, number_param,
}

-- The conditions as a reader of the address gets them: numbered anew.
abbrev pub relabel : ℕ → List SentCondition → List JsonFilterCondition
relabel i [] = []
relabel i (c ∷ cs) =
    record { id = codes "url-" ++ decimal i; path = c.path; operator = c.operator; value = c.value }
    ∷ relabel (suc i) cs

operator_of-name :
    (op : JsonOperator) → operator_of (some (string (json_operator_name op))) ≡ some op
unfolding json_operators
operator_of-name eq = refl
operator_of-name _ = refl

pub key_operator-name :
    (op : KeyOperator) → named key_operator_name key_operators (key_operator_name op) ≡ some op
unfolding key_operators
key_operator-name prefix = refl
key_operator-name _ = refl

pub value_operator-name :
    (op : ValueOperator)
    → named value_operator_name value_operators (value_operator_name op) ≡ some op
unfolding value_operators
value_operator-name ValueOperator.contains = refl
value_operator-name _ = refl

parse_items-sent :
    (i : ℕ) (cs : List SentCondition) → parse_items i (map sent_json cs) ≡ relabel i cs
unfolding parse_items parse_item
parse_items-sent i [] = refl
parse_items-sent i (c ∷ cs) = rw (operator_of-name c.operator, parse_items-sent (suc i) cs)

elements-elements_of : (vs : List Json) → elements (elements_of vs) ≡ vs
elements-elements_of [] = refl
elements-elements_of (v ∷ vs) = ap (◌∷◌ v) (elements-elements_of vs)

take-map {ℓ κ} :
    {A : Type ℓ} {B : Type κ} (f : A → B) (n : ℕ) (xs : List A)
    → take n (map f xs) ≡ map f (take n xs)
take-map f zero xs = refl
take-map f (suc n) [] = refl
take-map f (suc n) (x ∷ xs) = ap (◌∷◌ (f x)) (take-map f n xs)

pub parse_json_filters-sent :
    (cs : List SentCondition) → parse_json_filters (some (sent_array cs)) ≡ relabel 0 (take 5 cs)
unfolding parse_json_filters
parse_json_filters-sent cs =
    rw (elements-elements_of (map sent_json cs), take-map sent_json 5 cs)
      (parse_items-sent 0 (take 5 cs))

-- The entries, with the three tests as arguments.
abbrev pub entries :
    Bool → Bool → Bool → Text → Text → Text → Text → Text → Text → List (Text × Text)
entries no_key no_value no_json k ko v vo js limit =
    (if no_key then [] else (codes "keyFilter", k) ∷ (codes "keyOperator", ko) ∷ [])
    ++ ((if no_value then [] else (codes "valueFilter", v) ∷ (codes "valueOperator", vo) ∷ [])
        ++ ((if no_json then [] else (codes "jsonFilters", js) ∷ [])
            ++ (if no_key && no_value && no_json then [] else (codes "scanLimit", limit) ∷ [])))

pub or_option-none : (o : Option Text) → or_option o none ≡ o
or_option-none none = refl
or_option-none (some v) = refl

unfoldable pub unless : Bool → Text → Option Text
unless b v = if b then none else some v

-- What the entries say of each name.
pub record Carries (a b c : Bool) (k ko v vo js limit : Text) (es : List (Text × Text))
    : Type 0 where
  pub key : last_value (codes "keyFilter") es ≡ unless a k
  pub key_operator : last_value (codes "keyOperator") es ≡ unless a ko
  pub value : last_value (codes "valueFilter") es ≡ unless b v
  pub value_operator : last_value (codes "valueOperator") es ≡ unless b vo
  pub json : last_value (codes "jsonFilters") es ≡ unless c js
  pub scan_limit : last_value (codes "scanLimit") es ≡ unless (a && b && c) limit

pub carries :
    (a b c : Bool) {k ko v vo js limit : Text}
    → Carries a b c k ko v vo js limit (entries a b c k ko v vo js limit)
unfolding unless
carries a b c = ground arith

pub or_empty-unless : (k : Text) → or_empty (unless (is_empty k) k) ≡ k
unfolding unless
or_empty-unless [] = refl
or_empty-unless (c ∷ k) = refl

pub operator-unless {ℓ} :
    {A : Type ℓ} (read : Text → Option A) (b : Bool) (name : Text) {op : A} (d : A)
    → read name ≡ some op
    → or_else (Option.bind (unless b name) read) d ≡ (if b then d else op)
unfolding unless Option.bind
operator-unless read true name d e = refl
operator-unless read false name d e = rw e

pub scan_limit-unless :
    (parse : Text → Option Json) (read_number : Text → Number) (b : Bool) (limit : Text)
    {n : Number}
    → read_number limit ≡ n
    → clamp_scan_limit (number_param parse read_number (unless b limit)) (integer 5000)
      ≡ (if b then integer 5000 else clamp_scan_limit n (integer 5000))
unfolding unless clamp_scan_limit
scan_limit-unless parse read_number true limit e = refl
scan_limit-unless parse read_number false limit e = rw e
