-- ===== src/Uri/Bytes.antt =====
-- The bytes of a code point: written as escapes, and put together again.
use kafka_manager.Base.{
  ℕ, suc, ◌+◌, ◌*◌, ◌/◌, ◌%◌, ◌≤◌, ◌<◌, ◌≡◌, ◌⊎◌, inl, inr, some, List, [], ◌∷◌, ◌++◌, arith, Text,
  All,
}
use kafka_manager.Uri.{
  hex_digit, hex_value, utf8, utf16, percents, plain, Piece, byte, unescape, start, missing, emit,
  next, effect, is_valid, assemble,
}

hex_value-hex_digit : (n : ℕ) → n < 16 → hex_value (hex_digit n) ≡ some n
unfolding hex_value hex_digit
hex_value-hex_digit n h = ground arith

pub bytes : List ℕ → List Piece
bytes [] = []
bytes (b ∷ bs) = byte b ∷ bytes bs

pub unescape-percents :
    (bs : List ℕ) (s : Text) {ps : List Piece}
    → All (λ b. b < 256) bs
    → unescape plain s ≡ some ps
    → unescape plain (percents bs ++ s) ≡ some (bytes bs ++ ps)
unfolding unescape percents bytes
unescape-percents [] s h e = e
unescape-percents (b ∷ bs) s h e = ground (
  arith,
  hex_value-hex_digit (b / 16),
  hex_value-hex_digit (b % 16),
  unescape-percents bs s h.1 e,
)

-- A code point that is no surrogate.
abbrev pub IsScalar : ℕ → Type 0
IsScalar p = (p < 0xD800) ⊎ ((0xE000 ≤ p) × (p < 0x110000))

pub utf8_bounds : (p : ℕ) → IsScalar p → All (λ b. b < 256) (utf8 p)
unfolding utf8
utf8_bounds p h = ground arith

-- One byte at a time.
effect_single : (b : ℕ) → b < 0x80 → effect start b ≡ emit (b ∷ [])
unfolding effect
effect_single b h = ground arith

effect_two : (x : ℕ) → x < 0x20 → effect start (0xC0 + x) ≡ next (missing 1 x 0x80)
unfolding effect
effect_two x h = ground arith

effect_three : (x : ℕ) → x < 0x10 → effect start (0xE0 + x) ≡ next (missing 2 x 0x800)
unfolding effect
effect_three x h = ground arith

effect_four : (x : ℕ) → x < 8 → effect start (0xF0 + x) ≡ next (missing 3 x 0x10000)
unfolding effect
effect_four x h = ground arith

effect_more :
    (n acc least x : ℕ)
    → x < 0x40
    → effect (missing (suc (suc n)) acc least) (0x80 + x)
      ≡ next (missing (suc n) (acc * 0x40 + x) least)
unfolding effect
effect_more n acc least x h = ground arith

effect_last :
    (acc least x p : ℕ)
    → x < 0x40
    → acc * 0x40 + x ≡ p
    → least ≤ p
    → IsScalar p
    → effect (missing 1 acc least) (0x80 + x) ≡ emit (utf16 p)
unfolding effect is_valid
effect_last acc least x p h e l v = ground arith

-- The bytes of a code point, in the four forms.
module _ (p : ℕ) (ps : List Piece) {t : Text} (rest : assemble start ps ≡ some t) where
  assemble_one : p < 0x80 → assemble start (byte p ∷ ps) ≡ some (p ∷ t)
  unfolding assemble
  assemble_one h = rw (effect_single p h, assemble, rest)

  assemble_two :
      0x80 ≤ p
      → p < 0x800
      → assemble start (byte (0xC0 + p / 0x40) ∷ byte (0x80 + p % 0x40) ∷ ps) ≡ some (utf16 p ++ t)
  unfolding assemble
  assemble_two l h =
      rw (effect_two (p / 0x40) (omega arith), assemble)
        (rw (
          effect_last (p / 0x40) 0x80 (p % 0x40) p (omega arith) (omega arith) l (omega arith),
          assemble,
          rest,
        ))

  assemble_three :
      0x800 ≤ p
      → p < 0x10000
      → IsScalar p
      → assemble start
          (byte (0xE0 + p / 0x1000) ∷ byte (0x80 + p / 0x40 % 0x40) ∷ byte (0x80 + p % 0x40) ∷ ps)
        ≡ some (utf16 p ++ t)
  unfolding assemble
  assemble_three l h v =
      let a = p / 0x1000 in
      let b = p / 0x40 % 0x40 in
      rw (effect_three a (omega arith), assemble)
        (rw (effect_more 0 a 0x800 b (omega arith), assemble)
          (rw (
            effect_last (a * 0x40 + b) 0x800 (p % 0x40) p (omega arith) (omega arith) l v,
            assemble,
            rest,
          )))

  assemble_four :
      0x10000 ≤ p
      → IsScalar p
      → assemble start (
          byte (0xF0 + p / 0x40000)
          ∷ byte (0x80 + p / 0x1000 % 0x40)
          ∷ byte (0x80 + p / 0x40 % 0x40)
          ∷ byte (0x80 + p % 0x40)
          ∷ ps)
        ≡ some (utf16 p ++ t)
  unfolding assemble
  assemble_four l v =
      let a = p / 0x40000 in
      let b = p / 0x1000 % 0x40 in
      let c = p / 0x40 % 0x40 in
      rw (effect_four a (omega arith), assemble)
        (rw (effect_more 1 a 0x10000 b (omega arith), assemble)
          (rw (effect_more 0 (a * 0x40 + b) 0x10000 c (omega arith), assemble)
            (rw (
              effect_last ((a * 0x40 + b) * 0x40 + c) 0x10000 (p % 0x40) p (omega arith)
                  (omega arith) l v,
              assemble,
              rest,
            ))))

pub utf16_small : (p : ℕ) → p < 0x10000 → utf16 p ≡ p ∷ []
unfolding utf16
utf16_small p h = ground arith

abbrev two_bytes : ℕ → List ℕ
two_bytes p = (0xC0 + p / 0x40) ∷ (0x80 + p % 0x40) ∷ []

abbrev three_bytes : ℕ → List ℕ
three_bytes p = (0xE0 + p / 0x1000) ∷ (0x80 + p / 0x40 % 0x40) ∷ (0x80 + p % 0x40) ∷ []

abbrev four_bytes : ℕ → List ℕ
four_bytes p =
    (0xF0 + p / 0x40000)
    ∷ (0x80 + p / 0x1000 % 0x40)
    ∷ (0x80 + p / 0x40 % 0x40)
    ∷ (0x80 + p % 0x40)
    ∷ []

utf8_cases :
    (p : ℕ)
    → ((p < 0x80) × (utf8 p ≡ p ∷ []))
      ⊎ (((0x80 ≤ p) × (p < 0x800) × (utf8 p ≡ two_bytes p))
          ⊎ (((0x800 ≤ p) × (p < 0x10000) × (utf8 p ≡ three_bytes p))
              ⊎ ((0x10000 ≤ p) × (utf8 p ≡ four_bytes p))))
unfolding utf8
utf8_cases p = ground arith

pub assemble-utf8 :
    (p : ℕ) (ps : List Piece) {t : Text}
    → IsScalar p
    → assemble start ps ≡ some t
    → assemble start (bytes (utf8 p) ++ ps) ≡ some (utf16 p ++ t)
unfolding bytes
assemble-utf8 p ps v e = elim (utf8_cases p) [
  | inl (h, eq) ↦ rw (eq, utf16_small p (omega arith)) (assemble_one p ps e h)
  | inr (inl (l, h, eq)) ↦ rw eq (assemble_two p ps e l h)
  | inr (inr (inl (l, h, eq))) ↦ rw eq (assemble_three p ps e l h v)
  | inr (inr (inr (l, eq))) ↦ rw eq (assemble_four p ps e l v)
]
