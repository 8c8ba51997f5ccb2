-- ===== src/Messages/Screen/Conditions.antt =====
-- What the panel of filters offers, and what the handlers behind it do.
use kafka_manager.Base.{
  ℕ, suc, ◌<◌, ◌≡◌, ◌↔◌, inl, inr, not, Bool-cases, List, [], ◌∷◌, arith, Text, text_eq,
  text_eq_iff, length, filter, leb, length-append, length-filter-le,
}
use kafka_manager.Markup.{Offered, Offered-append}
use kafka_manager.Filters.{JsonOperator, JsonFilterCondition, Number, MessageFilters}
use kafka_manager.Messages.{add_json, remove_json}
use kafka_manager.Messages.Screen.{
  Action, add_condition, remove_condition, condition_items, needs_no_value, rows, conditions_items,
  limit_items, panel_items,
}

abbrev id_of : Action → Text
id_of (remove_condition id) = id
id_of _ = []

condition_items-add :
    (n : ℕ) (c : JsonFilterCondition) → ¬ Offered add_condition (condition_items n c)
unfolding condition_items
condition_items-add n c = elim (Bool-cases (needs_no_value c.operator)) [
  | inl e ↦ rw e (ground arith)
  | inr e ↦ rw e (ground arith)
]

condition_items-remove_iff :
    (n : ℕ) (c : JsonFilterCondition) (id : Text)
    → Offered (remove_condition id) (condition_items n c) ↔ (c.id ≡ id)
unfolding condition_items
condition_items-remove_iff n c id = elim (Bool-cases (needs_no_value c.operator)) [
  | inl e ↦ rw e (ground arith)
  | inr e ↦ rw e (ground arith)
]

rows-add : (n : ℕ) (cs : List JsonFilterCondition) → ¬ Offered add_condition (rows n cs)
rows-add n [] = λ h. h
rows-add n (c ∷ cs) = ground (
  arith,
  Offered-append add_condition (condition_items n c) (rows (suc n) cs),
  condition_items-add n c,
  rows-add (suc n) cs,
)

abbrev kept : Text → List JsonFilterCondition → ℕ
kept id cs = length (filter (λ c. not (text_eq c.id id)) cs)

rows-remove_iff :
    (n : ℕ) (cs : List JsonFilterCondition) (id : Text)
    → Offered (remove_condition id) (rows n cs) ↔ (kept id cs < length cs)
rows-remove_iff n [] id = ground arith
rows-remove_iff n (c ∷ cs) id = ground (
  arith,
  Offered-append (remove_condition id) (condition_items n c) (rows (suc n) cs),
  condition_items-remove_iff n c id,
  rows-remove_iff (suc n) cs id,
  length-filter-le (λ d. not (text_eq d.id id)) cs,
  text_eq_iff c.id id,
)

conditions_items-offers_iff :
    (cs : List JsonFilterCondition) (id : Text)
    → (Offered add_condition (conditions_items cs) ↔ (length cs ≡ 0))
      × (Offered (remove_condition id) (conditions_items cs) ↔ (kept id cs < length cs))
conditions_items-offers_iff [] id = (ground arith, ground arith)
conditions_items-offers_iff (c ∷ cs) id =
    (ground (arith, rows-add 0 (c ∷ cs)), rows-remove_iff 0 (c ∷ cs) id)

add_json-grows_iff :
    (id : Text) (f : MessageFilters)
    → (length (add_json id f).json_filters ≡ suc (length f.json_filters))
      ↔ (length f.json_filters < 5)
unfolding add_json
add_json-grows_iff id f = elim (Bool-cases (leb 5 (length f.json_filters))) [
  | inl e ↦ rw e (ground arith)
  | inr e ↦ rw e (
      ground (
        arith,
        length-append f.json_filters
            ((record { id = id; path = []; operator = JsonOperator.eq; value = [] }) ∷ []),
      ))
]

module _ (show_number : Number → Text) where
  -- The panel offers to add a condition exactly if `addJSON` adds one, and to remove the condition
  -- with an id exactly if `removeJSON` removes one for it.
  pub panel_items-offers_iff :
      (f : MessageFilters) (id : Text)
      → let items = panel_items show_number f in
        (Offered add_condition items
          ↔ (length (add_json id f).json_filters ≡ suc (length f.json_filters)))
        × (Offered (remove_condition id) items
            ↔ (length (remove_json id f).json_filters < length f.json_filters))
  unfolding panel_items remove_json
  panel_items-offers_iff f id =
      let cs = f.json_filters in
      let below = limit_items (show_number f.scan_limit) in
      (
        elim (Bool-cases (leb 5 (length cs))) [
          | inl e ↦ rw e (
              ground (
                arith,
                add_json-grows_iff id f,
                Offered-append add_condition (conditions_items cs) below,
                (conditions_items-offers_iff cs id).0,
              ))
          | inr e ↦ rw e (ground (arith, add_json-grows_iff id f))
        ],
        elim (Bool-cases (leb 5 (length cs))) [
          | inl e ↦ rw e (
              ground (
                arith,
                Offered-append (remove_condition id) (conditions_items cs) below,
                (conditions_items-offers_iff cs id).1,
              ))
          | inr e ↦ rw e (
              ground (
                arith,
                Offered-append (remove_condition id) (conditions_items cs) below,
                (conditions_items-offers_iff cs id).1,
              ))
        ],
      )
