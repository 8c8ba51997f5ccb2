-- ===== src/Filters/Sharing.antt =====
-- Filters written into an address and read back from it.
use mathlib.Core.Option
use kafka_manager.Base.{
  ◌≡◌, refl, true, Bool, ◌&&◌, Option, none, some, List, [], ◌∷◌, arith, if◌then◌else◌, Text, codes,
  take, any, is_empty, text_eq, All, ap, ◌∙◌,
}
use kafka_manager.Base.Search.{trim}
use kafka_manager.SearchParams.{Params, get}
use kafka_manager.SearchParams.Laws.{
  get-set_all, get-delete_all, last_value, IsListed, others, others-set_all, others-delete_all,
}
use kafka_manager.Filters.JsonValue.{Json, array, nil}
use kafka_manager.Filters.{
  KeyOperator, ValueOperator, key_operator_name, value_operator_name, key_operators,
  value_operators, Number, integer, MessageFilters, SentCondition, filter_param_names,
  serializable_json_filters, is_nil, sent_array, filter_query_params, replace_message_filter_params,
  or_empty, or_else, named, clamp_scan_limit, parse_json_filters, number_param,
  parse_message_filters,
}
use kafka_manager.Filters.Entries.{
  Carries, relabel, key_operator-name, value_operator-name, parse_json_filters-sent, entries,
  or_option-none, unless, carries, or_empty-unless, operator-unless, scan_limit-unless,
}

abbrev is_inactive : MessageFilters → Bool
is_inactive f =
    is_empty (trim f.key_filter)
    && is_empty (trim f.value_filter)
    && is_nil (serializable_json_filters f)

-- What an address carries of the filters.
abbrev pub shared : MessageFilters → MessageFilters
shared f = record {
  key_filter = trim f.key_filter;
  key_operator = if is_empty (trim f.key_filter) then KeyOperator.contains else f.key_operator;
  value_filter = trim f.value_filter;
  value_operator =
      if is_empty (trim f.value_filter) then ValueOperator.contains else f.value_operator;
  scan_limit = if is_inactive f then integer 5000 else clamp_scan_limit f.scan_limit (integer 5000);
  json_filters = relabel 0 (take 5 (serializable_json_filters f));
}

module _ (stringify : Json → Text) (parse : Text → Option Json) (show_number : Number → Text)
    (read_number : Text → Number) where
  -- What the host's functions have to do for the filters `f`: `JSON.parse` inverts
  -- `JSON.stringify` and `Number` inverts `String`, at the values that are written.
  pub record IsFaithful (f : MessageFilters) : Type 0 where
    pub json :
        let sent = sent_array (serializable_json_filters f) in parse (stringify sent) ≡ some sent
    pub empty_text : parse [] ≡ none
    pub empty_array : parse (codes "[]") ≡ some (array nil)
    pub number : read_number (show_number f.scan_limit) ≡ f.scan_limit

  module _ (current : Params) (f : MessageFilters) where
    abbrev written : Params
    written = replace_message_filter_params stringify show_number current f

    abbrev no_key : Bool
    no_key = is_empty (trim f.key_filter)

    abbrev no_value : Bool
    no_value = is_empty (trim f.value_filter)

    abbrev no_json : Bool
    no_json = is_nil (serializable_json_filters f)

    get-written :
        (j : Text)
        → any (λ k. text_eq k j) filter_param_names ≡ true
        → get j written ≡ last_value j (filter_query_params stringify show_number f)
    unfolding replace_message_filter_params
    get-written j h =
        get-set_all j (filter_query_params stringify show_number f) _
        ∙ rw (get-delete_all j filter_param_names current, h) (or_option-none _)

    written-Carries :
        Carries no_key no_value no_json
          (trim f.key_filter)
          (key_operator_name f.key_operator)
          (trim f.value_filter)
          (value_operator_name f.value_operator)
          (stringify (sent_array (serializable_json_filters f)))
          (show_number f.scan_limit)
          (filter_query_params stringify show_number f)
    unfolding filter_query_params
    written-Carries = carries no_key no_value no_json

    -- What is read back under each name.
    record Reads : Type 0 where
      key : get (codes "keyFilter") written ≡ unless no_key (trim f.key_filter)
      key_operator :
          get (codes "keyOperator") written ≡ unless no_key (key_operator_name f.key_operator)
      value : get (codes "valueFilter") written ≡ unless no_value (trim f.value_filter)
      value_operator :
          get (codes "valueOperator") written
          ≡ unless no_value (value_operator_name f.value_operator)
      json :
          get (codes "jsonFilters") written
          ≡ unless no_json (stringify (sent_array (serializable_json_filters f)))
      scan_limit :
          get (codes "scanLimit") written
          ≡ unless (no_key && no_value && no_json) (show_number f.scan_limit)

    reads : Reads
    unfolding filter_param_names
    reads =
        let w = written-Carries in
        record {
          key = get-written (codes "keyFilter") refl ∙ w.key;
          key_operator = get-written (codes "keyOperator") refl ∙ w.key_operator;
          value = get-written (codes "valueFilter") refl ∙ w.value;
          value_operator = get-written (codes "valueOperator") refl ∙ w.value_operator;
          json = get-written (codes "jsonFilters") refl ∙ w.json;
          scan_limit = get-written (codes "scanLimit") refl ∙ w.scan_limit;
        }

  -- The text of the conditions that the parser is given.
  abbrev json_text : Text → Text
  json_text t = if is_empty t then codes "[]" else t

  json-unless :
      (f : MessageFilters)
      → IsFaithful f
      → let sent = serializable_json_filters f in
        parse_json_filters
          (parse (json_text (or_empty (unless (is_nil sent) (stringify (sent_array sent))))))
        ≡ relabel 0 (take 5 sent)
  unfolding unless
  json-unless f h = go (serializable_json_filters f) h.json
    where
      filled : (t : Text) {v : Json} → parse t ≡ some v → parse (json_text t) ≡ some v
      filled [] e = cc (h.empty_text)
      filled (c ∷ t) e = e

      go :
          (cs : List SentCondition)
          → parse (stringify (sent_array cs)) ≡ some (sent_array cs)
          → parse_json_filters
              (parse (json_text (or_empty (unless (is_nil cs) (stringify (sent_array cs))))))
            ≡ relabel 0 (take 5 cs)
      go [] e = rw h.empty_array (parse_json_filters-sent [])
      go (c ∷ cs) e =
          rw (filled (stringify (sent_array (c ∷ cs))) e) (parse_json_filters-sent (c ∷ cs))

  -- Filters that are written into an address with any other parameters are read back from it
  -- trimmed, without the operators of absent filters, with a clamped scan limit (the default one if
  -- no filter is active), and with the first five conditions that have a path, numbered anew; if
  -- `JSON.parse` and `Number` invert `JSON.stringify` and `String` at the values written.
  pub parse-replace :
      (current : Params) (f : MessageFilters)
      → IsFaithful f
      → parse_message_filters parse read_number
          (replace_message_filter_params stringify show_number current f)
        ≡ shared f
  unfolding parse_message_filters
  parse-replace current f h i =
      let r = reads current f in
      record {
        key_filter = (ap or_empty r.key ∙ or_empty-unless (trim f.key_filter)) i;
        key_operator =
            (ap
                  (λ o.
                    or_else (Option.bind o (named key_operator_name key_operators))
                      KeyOperator.contains)
                  r.key_operator
                ∙ operator-unless (named key_operator_name key_operators) (no_key current f)
                    (key_operator_name f.key_operator) KeyOperator.contains
                    (key_operator-name f.key_operator))
              i;
        value_filter = (ap or_empty r.value ∙ or_empty-unless (trim f.value_filter)) i;
        value_operator =
            (ap
                  (λ o.
                    or_else (Option.bind o (named value_operator_name value_operators))
                      ValueOperator.contains)
                  r.value_operator
                ∙ operator-unless (named value_operator_name value_operators) (no_value current f)
                    (value_operator_name f.value_operator) ValueOperator.contains
                    (value_operator-name f.value_operator))
              i;
        scan_limit =
            (ap (λ o. clamp_scan_limit (number_param parse read_number o) (integer 5000))
                  r.scan_limit
                ∙ scan_limit-unless parse read_number (is_inactive f) (show_number f.scan_limit)
                    h.number)
              i;
        json_filters =
            (ap (λ o. parse_json_filters (parse (json_text (or_empty o)))) r.json ∙ json-unless f h)
              i;
      }

entries-IsListed :
    (a b c : Bool) (k ko v vo js limit : Text)
    → All (λ e. IsListed filter_param_names e.0) (entries a b c k ko v vo js limit)
unfolding filter_param_names
entries-IsListed a b c k ko v vo js limit = ground arith

filter_param_names-IsListed : All (IsListed filter_param_names) filter_param_names
unfolding filter_param_names
filter_param_names-IsListed = (refl, (refl, (refl, (refl, (refl, (refl, tt))))))

-- Writing filters into an address leaves the parameters of every other name as they are, in their
-- order and with their repetitions.
replace-others :
    (stringify : Json → Text) (show_number : Number → Text) (current : Params) (f : MessageFilters)
    → others filter_param_names (replace_message_filter_params stringify show_number current f)
      ≡ others filter_param_names current
unfolding replace_message_filter_params
replace-others stringify show_number current f =
    others-set_all filter_param_names (filter_query_params stringify show_number f) _ (
      unfold filter_query_params in
      entries-IsListed (is_empty (trim f.key_filter)) (is_empty (trim f.value_filter))
        (is_nil (serializable_json_filters f)) _ _ _ _ _ _)
    ∙ others-delete_all filter_param_names filter_param_names current filter_param_names-IsListed
