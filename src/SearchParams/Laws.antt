-- ===== src/SearchParams/Laws.antt =====
-- Reading a parameter after deletions and assignments.
use kafka_manager.Base.{
  ◌≡◌, refl, true, false, Bool, not, Option, none, some, List, [], ◌∷◌, ◌++◌, arith, if◌then◌else◌,
  Text, filter, any, text_eq, text_eq_iff, All, ap, sym, ◌∙◌, Bool-cases, inl, inr,
}
use kafka_manager.SearchParams.{Params, get, delete, set, delete_all, set_all}

pub get-delete :
    (j k : Text) (ps : Params) → get j (delete k ps) ≡ (if text_eq k j then none else get j ps)
unfolding get delete
get-delete j k [] = ground arith
get-delete j k ((i, v) ∷ ps) =
    ground (arith, get-delete j k ps, text_eq_iff i k, text_eq_iff i j, text_eq_iff k j)

pub get-set :
    (j k v : Text) (ps : Params) → get j (set k v ps) ≡ (if text_eq k j then some v else get j ps)
unfolding get set
get-set j k v [] = refl
get-set j k v ((i, w) ∷ ps) =
    ground (
      arith,
      get-set j k v ps,
      get-delete j k ps,
      text_eq_iff i k,
      text_eq_iff i j,
      text_eq_iff k j,
    )

abbrev pub or_option : Option Text → Option Text → Option Text
or_option none d = d
or_option (some v) d = some v

-- The last value that a list of assignments gives to a name.
abbrev pub last_value : Text → List (Text × Text) → Option Text
last_value j [] = none
last_value j ((k, v) ∷ es) = or_option (last_value j es) (if text_eq k j then some v else none)

or_option_if :
    (o d : Option Text) (b : Bool) (v : Text)
    → or_option o (if b then some v else d) ≡ or_option (or_option o (if b then some v else none)) d
or_option_if none d true v = refl
or_option_if none d false v = refl
or_option_if (some w) d b v = refl

pub get-set_all :
    (j : Text) (es : List (Text × Text)) (ps : Params)
    → get j (set_all es ps) ≡ or_option (last_value j es) (get j ps)
unfolding set_all
get-set_all j [] ps = refl
get-set_all j ((k, v) ∷ es) ps =
    get-set_all j es (set k v ps)
    ∙ rw (get-set j k v ps) (or_option_if (last_value j es) (get j ps) (text_eq k j) v)

pub get-delete_all :
    (j : Text) (names : List Text) (ps : Params)
    → get j (delete_all names ps) ≡ (if any (λ k. text_eq k j) names then none else get j ps)
unfolding delete_all
get-delete_all j [] ps = refl
get-delete_all j (k ∷ names) ps =
    get-delete_all j names (delete k ps) ∙ rw (get-delete j k ps) (ground arith)

pub last_value-append :
    (j : Text) (es fs : List (Text × Text))
    → last_value j (es ++ fs) ≡ or_option (last_value j fs) (last_value j es)
last_value-append j [] fs = ground arith
last_value-append j ((k, v) ∷ es) fs = ground (arith, last_value-append j es fs)

-- The entries whose names are in no given list, in their order.
module _ (names : List Text) where
  abbrev is_other : Text × Text → Bool
  is_other p = not (any (λ k. text_eq k p.0) names)

  pub others : Params → Params
  others = filter is_other

  -- A name that the list has.
  abbrev pub IsListed : Text → Type 0
  IsListed k = any (λ n. text_eq n k) names ≡ true

  others-cons_listed : (k v : Text) (ps : Params) → IsListed k → others ((k, v) ∷ ps) ≡ others ps
  unfolding others
  others-cons_listed k v ps h = rw h

  others-cons :
      (k v : Text) (ps qs : Params)
      → others ps ≡ others qs
      → others ((k, v) ∷ ps) ≡ others ((k, v) ∷ qs)
  unfolding others
  others-cons k v ps qs e = ap (λ rest. if is_other (k, v) then (k, v) ∷ rest else rest) e

  others-delete : (k : Text) (ps : Params) → IsListed k → others (delete k ps) ≡ others ps
  unfolding delete
  others-delete k [] h = refl
  others-delete k ((i, v) ∷ ps) h = elim (Bool-cases (text_eq i k)) [
    | inl same ↦
        let e : i ≡ k = (text_eq_iff i k).0 same in
        rw same (others-delete k ps h ∙ sym (rw e (others-cons_listed k v ps h)))
    | inr differs ↦ rw differs (others-cons i v (delete k ps) ps (others-delete k ps h))
  ]

  others-set : (k v : Text) (ps : Params) → IsListed k → others (set k v ps) ≡ others ps
  unfolding set
  others-set k v [] h = others-cons_listed k v [] h
  others-set k v ((i, w) ∷ ps) h = elim (Bool-cases (text_eq i k)) [
    | inl same ↦
        let e : i ≡ k = (text_eq_iff i k).0 same in
        rw same (
          others-cons_listed k v (delete k ps) h
          ∙ others-delete k ps h
          ∙ sym (rw e (others-cons_listed k w ps h)))
    | inr differs ↦ rw differs (others-cons i w (set k v ps) ps (others-set k v ps h))
  ]

  pub others-delete_all :
      (ks : List Text) (ps : Params) → All IsListed ks → others (delete_all ks ps) ≡ others ps
  unfolding delete_all
  others-delete_all [] ps h = refl
  others-delete_all (k ∷ ks) ps h = others-delete_all ks (delete k ps) h.1 ∙ others-delete k ps h.0

  pub others-set_all :
      (es : List (Text × Text)) (ps : Params)
      → All (λ e. IsListed e.0) es
      → others (set_all es ps) ≡ others ps
  unfolding set_all
  others-set_all [] ps h = refl
  others-set_all ((k, v) ∷ es) ps h = others-set_all es (set k v ps) h.1 ∙ others-set k v ps h.0
