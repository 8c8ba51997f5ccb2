-- ===== src/Overlay/Trap.antt =====
-- Where the tab key moves the focus in a layer.
use mathlib.Core.Option
use native.Mathlib.Decide.{ℕ_discrete}
use kafka_manager.Base.{
  ℕ, suc, zero, ◌+◌, ◌<◌, ◌==◌, length, ◌≡◌, refl, sym, ap, ◌∙◌, ◌≢◌, ◌⊎◌, inl, inr, Bool, true,
  false, some, List, [], ◌∷◌, arith, if◌then◌else◌, get_elem?, some_inj,
}
use kafka_manager.Overlay.{Document, tab, dialog_key, last_of}

-- Where the browser moves the focus by itself, from one element to another.
abbrev pub TabOrder : Type 0
TabOrder = (shift : Bool) → ℕ → ℕ

-- In the browser's order, each element of the layer is followed by the next one.
pub record Follows (order : TabOrder) (items : List ℕ) : Type 0 where
  pub forwards :
      (i a b : ℕ)
      → get_elem? items i ≡ some a
      → get_elem? items (suc i) ≡ some b
      → order false a ≡ b
  pub backwards :
      (i a b : ℕ) → get_elem? items i ≡ some a → get_elem? items (suc i) ≡ some b → order true b ≡ a

-- No element is listed twice.
abbrev pub AreDistinct : List ℕ → Type 0
AreDistinct items = (i j a : ℕ) → get_elem? items i ≡ some a → get_elem? items j ≡ some a → i ≡ j

-- The place to which the tab key moves from the place `i`, where the last place is `last`.
abbrev pub tabbed : Bool → ℕ → ℕ → ℕ
tabbed false last i = if i == last then 0 else i + 1
tabbed true last zero = last
tabbed true last (suc j) = j

tabbed-end : (last : ℕ) → tabbed false last last ≡ 0
tabbed-end last = ground arith

tabbed-inside : (last i : ℕ) → i < last → tabbed false last i ≡ suc i
tabbed-inside last i h = ground arith

-- The element is one of the layer's.
abbrev pub IsIn : ℕ → List ℕ → Type 0
IsIn a items = (i : ℕ) × (get_elem? items i ≡ some a)

-- An element is the last one, or another one follows it.
last-cases :
    (x : ℕ) (xs : List ℕ) (i a : ℕ)
    → get_elem? (x ∷ xs) i ≡ some a
    → (a ≡ last_of x xs) ⊎ ((b : ℕ) × (get_elem? (x ∷ xs) (suc i) ≡ some b))
last-cases x [] zero a e = inl (sym (some_inj e))
last-cases x (y ∷ ys) zero a e = inr (y, refl)
last-cases x [] (suc i) a e = cc
last-cases x (y ∷ ys) (suc i) a e = last-cases y ys i a e

last-at : (x : ℕ) (xs : List ℕ) → get_elem? (x ∷ xs) (length xs) ≡ some (last_of x xs)
last-at x [] = refl
last-at x (y ∷ ys) = last-at y ys

get_elem?-some : (xs : List ℕ) (i b : ℕ) → get_elem? xs i ≡ some b → i < length xs
get_elem?-some [] i b e = absurd (ground (arith, e))
get_elem?-some (x ∷ xs) zero b e = omega arith
get_elem?-some (x ∷ xs) (suc i) b e = omega (arith, get_elem?-some xs i b e)

before :
    (items : List ℕ) (j a : ℕ)
    → get_elem? items (suc j) ≡ some a
    → (b : ℕ) × (get_elem? items j ≡ some b)
before [] j a e = cc
before (x ∷ xs) zero a e = (x, refl)
before (x ∷ xs) (suc j) a e = before xs j a e

module _ (attached : ℕ → Bool) (order : TabOrder) (close_disabled : Bool) where
  -- The tab key: what the listener does, and what the browser does unless it is prevented.
  pub press_tab : List ℕ → Bool → Document → Document
  press_tab items shift d =
      let r = dialog_key attached close_disabled items (tab shift) d in
      if r.prevents then r.document else record d { active = Option.map (order shift) d.active }

  module _ (x : ℕ) (xs : List ℕ) (d : Document) (a : ℕ) (h : d.active ≡ some a) where
    tab-wraps : attached x ≡ true → a ≡ last_of x xs → (press_tab (x ∷ xs) false d).active ≡ some x
    unfolding press_tab dialog_key
    tab-wraps p e = ground (arith, h, p, e)

    tab-moves : a ≢ last_of x xs → (press_tab (x ∷ xs) false d).active ≡ some (order false a)
    unfolding press_tab dialog_key
    tab-moves e = ground (arith, h, e)

    back-wraps :
        attached (last_of x xs) ≡ true
        → a ≡ x
        → (press_tab (x ∷ xs) true d).active ≡ some (last_of x xs)
    unfolding press_tab dialog_key
    back-wraps p e = ground (arith, h, p, e)

    back-moves : a ≢ x → (press_tab (x ∷ xs) true d).active ≡ some (order true a)
    unfolding press_tab dialog_key
    back-moves e = ground (arith, h, e)

  forwards-moves :
      (x : ℕ) (xs : List ℕ) (i a : ℕ) (d : Document)
      → Follows order (x ∷ xs)
      → AreDistinct (x ∷ xs)
      → attached x ≡ true
      → get_elem? (x ∷ xs) i ≡ some a
      → d.active ≡ some a
      → (press_tab (x ∷ xs) false d).active ≡ get_elem? (x ∷ xs) (tabbed false (length xs) i)
  forwards-moves x xs i a d f different p e h = elim (ℕ_discrete a (last_of x xs)) [
    | yes here ↦
        let at_end : i ≡ length xs =
          different i (length xs) a e (last-at x xs ∙ ap some (sym here)) in
        tab-wraps x xs d a h p here ∙ rw (at_end, tabbed-end (length xs)) refl
    | no more ↦ elim (last-cases x xs i a e) [
      | inl here ↦ absurd (more here)
      | inr (b, g) ↦
          let inside : i < length xs = get_elem?-some xs i b g in
          tab-moves x xs d a h more
          ∙ ap some (f.forwards i a b e g)
          ∙ sym g
          ∙ rw (tabbed-inside (length xs) i inside) refl
    ]
  ]

  backwards-moves :
      (x : ℕ) (xs : List ℕ) (i a : ℕ) (d : Document)
      → Follows order (x ∷ xs)
      → AreDistinct (x ∷ xs)
      → attached (last_of x xs) ≡ true
      → get_elem? (x ∷ xs) i ≡ some a
      → d.active ≡ some a
      → (press_tab (x ∷ xs) true d).active ≡ get_elem? (x ∷ xs) (tabbed true (length xs) i)
  backwards-moves x xs zero a d f different p e h =
      back-wraps x xs d a h p (sym (some_inj e)) ∙ sym (last-at x xs)
  backwards-moves x xs (suc j) a d f different p e h =
      let (b, g) = before (x ∷ xs) j a e in
      let not_first : a ≢ x =
        λ same. absurd (omega (arith, different (suc j) 0 a e (ap some (sym same)))) in
      back-moves x xs d a h not_first ∙ ap some (f.backwards j b a g e) ∙ sym g

  -- If the browser goes through the elements of a layer in their order, no two of which are the same,
  -- and all of them are in the document, then the tab key moves the focus from an element to the next
  -- one, and from the last one to the first; with the shift key, to the one before, and from the first
  -- one to the last.
  pub press_tab-moves :
      (x : ℕ) (xs : List ℕ) (shift : Bool) (i a : ℕ) (d : Document)
      → Follows order (x ∷ xs)
      → AreDistinct (x ∷ xs)
      → ((b : ℕ) → IsIn b (x ∷ xs) → attached b ≡ true)
      → get_elem? (x ∷ xs) i ≡ some a
      → d.active ≡ some a
      → (press_tab (x ∷ xs) shift d).active ≡ get_elem? (x ∷ xs) (tabbed shift (length xs) i)
  press_tab-moves x xs false i a d f different p e h =
      forwards-moves x xs i a d f different (p x (0, refl)) e h
  press_tab-moves x xs true i a d f different p e h =
      backwards-moves x xs i a d f different (p (last_of x xs) (length xs, last-at x xs)) e h
