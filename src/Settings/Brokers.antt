-- ===== src/Settings/Brokers.antt =====
-- The text area with one broker a line.
use kafka_manager.Base.{
  ◌≡◌, refl, ◌∙◌, ap, ◌≢◌, not, List, [], ◌∷◌, ◌++◌, arith, ◌==◌, Text, is_empty, filter,
  append-nil, Bool-cases, inl, inr, All,
}
use kafka_manager.Navigation.Routes.{split}
use kafka_manager.Navigation.Routes.Split.{split_first, split_last, split-append, keep}
use kafka_manager.Settings.{brokers_text, read_brokers}

filter-append :
    (xs ys : List Text)
    → filter (λ b. not (is_empty b)) (xs ++ ys)
      ≡ filter (λ b. not (is_empty b)) xs ++ filter (λ b. not (is_empty b)) ys
filter-append [] ys = refl
filter-append (x ∷ xs) ys = ground (arith, filter-append xs ys)

abbrev one_more : List Text → List Text
one_more ls = ls ++ [] ∷ []

-- A line break at the end adds an empty line.
split-line : (t : Text) → split 10 (t ++ 10 ∷ []) ≡ one_more (split 10 t)
unfolding split
split-line [] = refl
split-line (c ∷ t) = elim (Bool-cases (c == 10)) [
  | inl e ↦ rw (e, split-line t)
  | inr e ↦ let (l, ls, g) = split_first 10 t in rw (e, split-line t, g)
]

-- A line break that is typed at the end of the text area changes nothing: it is not even shown, for
-- the text is computed from the brokers read.
read_brokers-line : (t : Text) → read_brokers (t ++ 10 ∷ []) ≡ read_brokers t
unfolding read_brokers
read_brokers-line t =
    ap (filter (λ b. not (is_empty b))) (split-line t)
    ∙ filter-append (split 10 t) ([] ∷ [])
    ∙ append-nil _

-- A broker's address: not empty, and on one line.
abbrev pub IsLine : Text → Type 0
IsLine b = (b ≢ []) × All (λ c. c ≢ 10) b

-- The brokers that the text area shows, if each is a line that is not empty, are read back from it.
read_brokers-brokers_text : (bs : List Text) → All IsLine bs → read_brokers (brokers_text bs) ≡ bs
unfolding read_brokers brokers_text
read_brokers-brokers_text [] h = unfold split in refl
read_brokers-brokers_text (b ∷ []) h = rw (split_last 10 b h.0.1) (keep b [] h.0.0)
read_brokers-brokers_text (b ∷ c ∷ bs) h = rw (split-append 10 b (brokers_text (c ∷ bs)) h.0.1) (
    keep b (split 10 (brokers_text (c ∷ bs))) h.0.0
    ∙ ap (◌∷◌ b) (read_brokers-brokers_text (c ∷ bs) h.1))
