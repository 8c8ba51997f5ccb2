-- ===== src/Markup.antt =====
-- What the components of web/src draw: the items of a screen in the order of the document, with the
-- components of web/src/components/Common.tsx that are one item each. Boxes, classes, icons and
-- tooltips that repeat a label are left out.
pub mod Dialog
use mathlib.Core.Path.{subst}
use kafka_manager.Base.{
  ℕ, suc, ◌≡◌, refl, sym, ◌⊎◌, ◌↔◌, arith, inl, inr, Bool, true, false, Option, none, List, [], ◌∷◌,
  map, flat_map, ◌++◌, Text, codes,
}
use kafka_manager.Base.Decimal.{decimal}
use kafka_manager.Base.Int.{ℤ, pos, negsuc}

pub data Tone : Type 0 where
  good warn bad neutral : Tone

-- A button has a label, may be disabled, may have a title, and does something. A field has a label
-- and a value, may be disabled, and does something with the text that is typed.
pub data Item (E : Type 0) : Type 0 where
  loading : Item E
  text : Text → Item E
  error_notice : Text → Item E
  notice : Text → Item E
  status : Tone → Text → Item E
  empty : Text → Text → Item E
  button : Text → Bool → Option Text → E → Item E
  field : Text → Text → Bool → (Text → E) → Item E

module _ {E : Type 0} where
  -- `condition && items`
  abbrev pub when : Bool → List (Item E) → List (Item E)
  when true items = items
  when false items = []

  -- `{error && <ErrorNotice message={error} />}`
  abbrev pub error_items : Text → List (Item E)
  error_items [] = []
  error_items (c ∷ message) = error_notice (c ∷ message) ∷ []

  -- A button that is never disabled, and has no title.
  abbrev pub link : Text → E → Item E
  link label e = button label false none e

  -- What a reader can do on a screen.
  abbrev pub Offers : Item E → E → Type 0
  Offers (button label false title e) a = a ≡ e
  Offers (field label value false f) a = (typed : Text) × (a ≡ f typed)
  Offers _ a = ⊥

  abbrev pub Offered : E → List (Item E) → Type 0
  Offered a [] = ⊥
  Offered a (x ∷ xs) = Offers x a ⊎ Offered a xs

  -- All that a reader can do satisfies `P`.
  abbrev pub Allows : (E → Type 0) → Item E → Type 0
  Allows P (button label is_disabled title e) = is_disabled ≡ false → P e
  Allows P (field label value is_disabled f) = is_disabled ≡ false → (typed : Text) → P (f typed)
  Allows P _ = Unit

  abbrev pub AllowsAll : (E → Type 0) → List (Item E) → Type 0
  AllowsAll P [] = Unit
  AllowsAll P (x ∷ xs) = Allows P x × AllowsAll P xs

  pub Offered-append :
      (e : E) (xs ys : List (Item E)) → Offered e (xs ++ ys) ↔ (Offered e xs ⊎ Offered e ys)
  Offered-append e [] ys = (λ h. inr h, λ h. elim h [ inl o ↦ absurd o | inr o ↦ o ])
  Offered-append e (x ∷ xs) ys = ground (arith, Offered-append e xs ys)

  pub Offered-error_items : (e : E) (message : Text) → ¬ Offered e (error_items message)
  Offered-error_items e [] o = o
  Offered-error_items e (c ∷ message) o = elim o [ inl h ↦ h | inr h ↦ h ]

  allowed_item : (P : E → Type 0) {a : E} (x : Item E) → Allows P x → Offers x a → P a
  allowed_item P (button label true title e) h o = absurd o
  allowed_item P (button label false title e) h o = subst P (sym o) (h refl)
  allowed_item P (field label value true f) h o = absurd o
  allowed_item P (field label value false f) h (typed, o) = subst P (sym o) (h refl typed)
  allowed_item P loading h o = absurd o
  allowed_item P (text t) h o = absurd o
  allowed_item P (error_notice t) h o = absurd o
  allowed_item P (notice t) h o = absurd o
  allowed_item P (status k t) h o = absurd o
  allowed_item P (empty t d) h o = absurd o

  pub allowed : (P : E → Type 0) {a : E} (xs : List (Item E)) → AllowsAll P xs → Offered a xs → P a
  allowed P [] h o = absurd o
  allowed P (x ∷ xs) h (inl o) = allowed_item P x h.0 o
  allowed P (x ∷ xs) h (inr o) = allowed P xs h.1 o

  pub AllowsAll-append :
      (P : E → Type 0) (xs ys : List (Item E))
      → AllowsAll P xs
      → AllowsAll P ys
      → AllowsAll P (xs ++ ys)
  AllowsAll-append P [] ys h k = k
  AllowsAll-append P (x ∷ xs) ys h k = (h.0, AllowsAll-append P xs ys h.1 k)

  pub AllowsAll-when :
      (P : E → Type 0) (b : Bool) (xs : List (Item E))
      → (b ≡ true → AllowsAll P xs)
      → AllowsAll P (when b xs)
  AllowsAll-when P true xs h = h refl
  AllowsAll-when P false xs h = tt

  pub AllowsAll-error_items : (P : E → Type 0) (message : Text) → AllowsAll P (error_items message)
  AllowsAll-error_items P [] = tt
  AllowsAll-error_items P (c ∷ message) = (tt, tt)

module _ {E : Type 0} {A : Type 0} where
  pub AllowsAll-map :
      (P : E → Type 0) (f : A → Item E)
      → ((x : A) → Allows P (f x))
      → (xs : List A) → AllowsAll P (map f xs)
  AllowsAll-map P f h [] = tt
  AllowsAll-map P f h (x ∷ xs) = (h x, AllowsAll-map P f h xs)

  pub AllowsAll-flat_map :
      (P : E → Type 0) (f : A → List (Item E))
      → ((x : A) → AllowsAll P (f x))
      → (xs : List A) → AllowsAll P (flat_map f xs)
  unfolding flat_map
  AllowsAll-flat_map P f h [] = tt
  AllowsAll-flat_map P f h (x ∷ xs) =
      AllowsAll-append P (f x) (flat_map f xs) (h x) (AllowsAll-flat_map P f h xs)

-- What the items that one element of a list draws offer, the list offers, and nothing else.
module _ {E : Type 0} {A : Type 0} (f : A → List (Item E)) (e : E) where
  abbrev pub OfferedBy : List A → Type 0
  OfferedBy [] = ⊥
  OfferedBy (x ∷ xs) = Offered e (f x) ⊎ OfferedBy xs

  pub Offered-flat_map : (xs : List A) → Offered e (flat_map f xs) ↔ OfferedBy xs
  unfolding flat_map
  Offered-flat_map [] = (λ h. h, λ h. h)
  Offered-flat_map (x ∷ xs) =
      ground (arith, Offered-append e (f x) (flat_map f xs), Offered-flat_map xs)

pub integer : ℤ → Text
integer (pos n) = decimal n
integer (negsuc n) = codes "-" ++ decimal (suc n)

-- `list.join(', ')`
pub joined : List ℕ → Text
joined [] = []
joined (n ∷ []) = decimal n
joined (n ∷ m ∷ ns) = decimal n ++ (codes ", " ++ joined (m ∷ ns))
