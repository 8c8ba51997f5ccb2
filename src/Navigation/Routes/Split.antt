-- ===== src/Navigation/Routes/Split.antt =====
-- Splitting an address that was put together from components without the separator.
use kafka_manager.Base.{
  Bool-cases, inl, inr, ◌==◌, ==_iff, ap, sym, ◌∙◌, ℕ, All, ◌≡◌, refl, ◌≢◌, List, [], ◌∷◌, ◌++◌,
  arith, Text, not, is_empty, filter,
}
use kafka_manager.Uri.Safety.{NoSlash}
use kafka_manager.Navigation.Routes.{split, segments}

-- There is always a first part.
pub split_first : (d : ℕ) (t : Text) → (l : Text) × (ls : List Text) × (split d t ≡ l ∷ ls)
unfolding split
split_first d [] = ([], [], refl)
split_first d (c ∷ t) = elim (Bool-cases (c == d)) [
  | inl e ↦ ([], split d t, rw e)
  | inr e ↦ let (l, ls, g) = split_first d t in (c ∷ l, ls, rw (e, g))
]

-- The parts, joined by the separator, are the text again.
abbrev pub join : ℕ → List Text → Text
join d [] = []
join d (a ∷ []) = a
join d (a ∷ b ∷ r) = a ++ d ∷ join d (b ∷ r)

join-first : (d c : ℕ) (l : Text) (ls : List Text) → join d ((c ∷ l) ∷ ls) ≡ c ∷ join d (l ∷ ls)
join-first d c l [] = refl
join-first d c l (m ∷ ls) = refl

pub join-split : (d : ℕ) (t : Text) → join d (split d t) ≡ t
unfolding split
join-split d [] = refl
join-split d (c ∷ t) =
    let ih = join-split d t in
    let (l, ls, g) = split_first d t in
    let joined : join d (l ∷ ls) ≡ t = rw (← g) ih in
    elim (Bool-cases (c == d)) [
      | inl e ↦ rw (e, g) (rw joined (ap (λ x. x ∷ t) (sym ((==_iff c d).0 e))))
      | inr e ↦ rw (e, g) (join-first d c l ls ∙ ap (◌∷◌ c) joined)
    ]

pub split_last : (d : ℕ) (a : Text) → All (λ c. c ≢ d) a → split d a ≡ a ∷ []
unfolding split
split_last d [] h = refl
split_last d (c ∷ a) h = ground (arith, split_last d a h.1)

pub split-append : (d : ℕ) (a b : Text) → All (λ c. c ≢ d) a → split d (a ++ d ∷ b) ≡ a ∷ split d b
unfolding split
split-append d [] b h = ground arith
split-append d (c ∷ a) b h = ground (arith, split-append d a b h.1)

abbrev pub IsComponent : Text → Type 0
IsComponent a = NoSlash a × (a ≢ [])

pub keep :
    (a : Text) (rest : List Text)
    → a ≢ []
    → filter (λ s. not (is_empty s)) (a ∷ rest) ≡ a ∷ filter (λ s. not (is_empty s)) rest
keep [] rest h = absurd (h refl)
keep (c ∷ a) rest h = refl

-- A leading slash adds no segment.
pub segments_root : (s : Text) → segments (b'/' ∷ s) ≡ segments s
unfolding segments split
segments_root s = refl

pub segments_last : (a : Text) → IsComponent a → segments a ≡ a ∷ []
unfolding segments
segments_last a h = rw (split_last b'/' a h.0) (keep a [] h.1)

pub segments-append : (a b : Text) → IsComponent a → segments (a ++ b'/' ∷ b) ≡ a ∷ segments b
unfolding segments
segments-append a b h = rw (split-append b'/' a b h.0) (keep a (split b'/' b) h.1)
