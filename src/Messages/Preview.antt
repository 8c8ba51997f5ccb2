-- ===== src/Messages/Preview.antt =====
-- `parseMessageValue` of web/src/components/JsonViewer.tsx and `preview` of
-- web/src/pages/MessagesPage.tsx. `JSON.parse` and `JSON.stringify` are parameters.
use kafka_manager.Base.{
  ℕ, zero, suc, ap, ◌∙◌, Bool-cases, inl, inr, ◌≤◌, ◌<◌, ◌≡◌, refl, Option, none, some, [], ◌∷◌,
  ◌++◌, arith, Text, codes, if◌then◌else◌, ltb, length, take, length-append, length-take,
}
use kafka_manager.Filters.JsonValue.{Json}

pub data ParsedValue : Type 0 where
  json : Json → ParsedValue
  text : Text → ParsedValue

take-all : (n : ℕ) (s : Text) → length s ≤ n → take n s ≡ s
take-all zero [] h = refl
take-all (suc n) [] h = refl
take-all zero (c ∷ s) h = absurd (omega arith)
take-all (suc n) (c ∷ s) h = ap (◌∷◌ c) (take-all n s (omega arith))

take-append : (n : ℕ) (s t : Text) → n ≤ length s → take n (s ++ t) ≡ take n s
take-append zero s t h = refl
take-append (suc n) [] t h = absurd (omega arith)
take-append (suc n) (c ∷ s) t h = ap (◌∷◌ c) (take-append n s t (omega arith))

abbrev clip : Text → Text
clip shown = if ltb 120 (length shown) then take 120 shown ++ codes "…" else shown

clip-prefix : (s : Text) → (length (clip s) ≤ 121) × (take 120 (clip s) ≡ take 120 s)
clip-prefix s = elim (Bool-cases (ltb 120 (length s))) [
  | inl long ↦
      let more : 120 < length s = ground arith in
      let all : length (take 120 s) ≡ 120 = omega (arith, length-take {0} 120 s, more) in
      rw long (
        omega (arith, length-append {0} (take 120 s) (codes "…"), all),
        take-append 120 (take 120 s) (codes "…") (omega (arith, all))
            ∙ take-all 120 (take 120 s) (omega (arith, all)),
      )
  | inr short ↦ rw short (ground arith, refl)
]

module _ (parse : Text → Option Json) (stringify : Json → Text) where
  unfoldable pub parse_message_value : Text → ParsedValue
  parse_message_value raw = elim (parse raw) [ some v ↦ json v | none ↦ text raw ]

  abbrev pub shown_text : ParsedValue → Text → Text
  shown_text (json v) value = stringify v
  shown_text (text t) value = value

  pub preview : Text → Text
  preview value =
      let shown = shown_text (parse_message_value value) value in
      if ltb 120 (length shown) then take 120 shown ++ codes "…" else shown

  -- A preview has at most 121 characters, and its first 120 characters are those of the text that it
  -- stands for: the compact form of a JSON value, and any other value as it is.
  pub preview-prefix :
      (value : Text)
      → (length (preview value) ≤ 121)
        × (take 120 (preview value) ≡ take 120 (shown_text (parse_message_value value) value))
  unfolding preview
  preview-prefix value = clip-prefix (shown_text (parse_message_value value) value)
