-- ===== src/Uri/CodePoints.antt =====
-- The code units of a string and its code points.
use kafka_manager.Base.{
  ℕ, ◌+◌, ◌-◌, ◌*◌, ◌≤◌, ◌<◌, ◌≡◌, refl, inl, inr, some, List, [], ◌∷◌, ◌++◌, arith, Text, All,
  Bool-cases, map-eq-some,
}
use kafka_manager.Uri.{is_high, is_low, Pending, clear, high, code_points, utf16}
use kafka_manager.Uri.Bytes.{IsScalar, utf16_small}

unfoldable pub utf16s : List ℕ → Text
utf16s [] = []
utf16s (p ∷ ps) = utf16 p ++ utf16s ps

-- A string as the host gives it: its units have 16 bits.
abbrev pub AreUnits : Text → Type 0
AreUnits = All (λ c. c < 0x10000)

abbrev pub pending : Pending → Text
pending clear = []
pending (high h) = h ∷ []

abbrev pub IsPending : Pending → Type 0
IsPending clear = Unit
IsPending (high h) = (0xD800 ≤ h) × (h < 0xDC00)

pair : ℕ → ℕ → ℕ
pair h c = (h - 0xD800) * 0x400 + (c - 0xDC00) + 0x10000

utf16-pair :
    (h c : ℕ)
    → IsPending (high h)
    → 0xDC00 ≤ c
    → c < 0xE000
    → (utf16 (pair h c) ≡ h ∷ c ∷ []) × IsScalar (pair h c)
unfolding utf16 pair
utf16-pair h c v l u = ground arith

abbrev pub Spells : List ℕ → Text → Type 0
Spells ps s = (utf16s ps ≡ s) × All IsScalar ps

Spells-cons :
    (p : ℕ) (ps : List ℕ) {t s : Text}
    → utf16 p ≡ t
    → IsScalar p
    → Spells ps s
    → Spells (p ∷ ps) (t ++ s)
unfolding utf16s
Spells-cons p ps e v (f, w) = (rw (e, f), (v, w))

pub utf16s-code_points :
    (state : Pending) (s : Text) {ps : List ℕ}
    → AreUnits s
    → IsPending state
    → code_points state s ≡ some ps
    → Spells ps (pending state ++ s)
unfolding code_points pair
utf16s-code_points clear [] {ps} u v e = let p : ps ≡ [] = cc in rw p (unfold utf16s in (refl, tt))
utf16s-code_points (high h) [] u v e = cc
utf16s-code_points clear (c ∷ s) u v e = elim (Bool-cases (is_low c)) [
  | inl low ↦ cc (rw low at e)
  | inr no_low ↦ elim (Bool-cases (is_high c)) [
    | inl hi ↦ utf16s-code_points (high c) s u.1 (ground arith) (rw (no_low, hi) at e)
    | inr no_high ↦
        let (qs, f, g) = map-eq-some (◌∷◌ c) (code_points clear s) (rw (no_low, no_high) at e) in
        rw g (
          Spells-cons c qs (utf16_small c u.0) (ground arith) (utf16s-code_points clear s u.1 tt f))
  ]
]
utf16s-code_points (high h) (c ∷ s) u v e = elim (Bool-cases (is_low c)) [
  | inl low ↦
      let (qs, f, g) = map-eq-some (◌∷◌ (pair h c)) (code_points clear s) (rw low at e) in
      let (spelt, scalar) = utf16-pair h c v (ground arith) (ground arith) in
      rw g (Spells-cons (pair h c) qs spelt scalar (utf16s-code_points clear s u.1 tt f))
  | inr no_low ↦ cc (rw no_low at e)
]
