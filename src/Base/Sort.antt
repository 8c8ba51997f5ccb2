-- ===== src/Base/Sort.antt =====
-- `Array.prototype.sort` with a comparator: the stable arrangement by the sign of the comparator.
use mathlib.Core.Path.{◌≡◌, refl, ap, ◌∙◌}
use mathlib.Core.Bool.{Bool, true, false}
use mathlib.Core.Logic.{inl, inr}
use mathlib.Core.List.{List, [], ◌∷◌, Perm}
use mathlib.Core.List.Perm
use native.Mathlib.Omega.{arith}
use kafka_manager.Base.Tests.{if◌then◌else◌, Bool-cases}
use kafka_manager.Base.Lists.{All, filter, length}
use Prim.Native.Nat.{◌+◌}
use kafka_manager.Base.Int.{ℤ, is_positive, is_negative}

-- Each element stands in the relation to all that come after it.
abbrev pub OrderedBy {ℓ κ} : {A : Type ℓ} → (A → A → Type κ) → List A → Type κ
OrderedBy R [] = Unit
OrderedBy R (x ∷ xs) = All (R x) xs × OrderedBy R xs

pub All-map {ℓ κ μ} :
    {A : Type ℓ} (P : A → Type κ) (Q : A → Type μ)
    → ((a : A) → P a → Q a)
    → (xs : List A) → All P xs
    → All Q xs
All-map P Q f [] h = tt
All-map P Q f (x ∷ xs) h = (f x h.0, All-map P Q f xs h.1)

pub OrderedBy-map {ℓ κ μ} :
    {A : Type ℓ} (R : A → A → Type κ) (S : A → A → Type μ)
    → ((a b : A) → R a b → S a b)
    → (xs : List A) → OrderedBy R xs
    → OrderedBy S xs
OrderedBy-map R S f [] h = tt
OrderedBy-map R S f (x ∷ xs) h = (All-map (R x) (S x) (f x) xs h.0, OrderedBy-map R S f xs h.1)

module _ {ℓ} {A : Type ℓ} (cmp : A → A → ℤ) where
  -- `x` stood before all of the sorted rest, so it stays before its equals.
  unfoldable pub insert : A → List A → List A
  insert x [] = x ∷ []
  insert x (y ∷ ys) =
      let later = insert x ys in if is_positive (cmp x y) then y ∷ later else x ∷ y ∷ ys

  unfoldable pub sort : List A → List A
  unfolding insert
  sort [] = []
  sort (x ∷ xs) = insert x (sort xs)

  -- What ECMAScript asks of a comparator, so that the order of the result is determined.
  pub record IsConsistent : Type ℓ where
    pub flip : (a b : A) → is_positive (cmp b a) ≡ is_negative (cmp a b)
    pub trans :
        (a b c : A)
        → is_positive (cmp a b) ≡ false
        → is_positive (cmp b c) ≡ false
        → is_positive (cmp a c) ≡ false

  -- No element comes after one that the comparator puts behind it.
  abbrev pub IsSorted : List A → Type 0
  IsSorted = OrderedBy (λ x y. is_positive (cmp x y) ≡ false)

module _ {ℓ} {A : Type ℓ} (cmp : A → A → ℤ) where
  insert-perm : (x : A) (ys : List A) → Perm (insert cmp x ys) (x ∷ ys)
  unfolding insert
  insert-perm x [] = Perm.refl (x ∷ [])
  insert-perm x (y ∷ ys) = elim (Bool-cases (is_positive (cmp x y))) [
    | inl h ↦ rw h (Perm.trans (Perm.cons y (insert-perm x ys)) (Perm.swap x y ys))
    | inr h ↦ rw h (Perm.refl (x ∷ y ∷ ys))
  ]

  pub sort-perm : (xs : List A) → Perm (sort cmp xs) xs
  unfolding sort
  sort-perm [] = Perm.refl []
  sort-perm (x ∷ xs) = Perm.trans (insert-perm x (sort cmp xs)) (Perm.cons x (sort-perm xs))

  insert-All {κ} : (P : A → Type κ) (x : A) (ys : List A) → P x → All P ys → All P (insert cmp x ys)
  unfolding insert
  insert-All P x [] p h = (p, tt)
  insert-All P x (y ∷ ys) p h = elim (Bool-cases (is_positive (cmp x y))) [
    | inl e ↦ rw e (h.0, insert-All P x ys p h.1)
    | inr e ↦ rw e (p, h)
  ]

  pub sort-All {κ} : (P : A → Type κ) (xs : List A) → All P xs → All P (sort cmp xs)
  unfolding sort
  sort-All P [] h = tt
  sort-All P (x ∷ xs) h = insert-All P x (sort cmp xs) h.0 (sort-All P xs h.1)

  insert-length : (x : A) (ys : List A) → length (insert cmp x ys) ≡ length ys + 1
  unfolding insert
  insert-length x [] = refl
  insert-length x (y ∷ ys) = ground (arith, insert-length x ys)

  pub sort-length : (xs : List A) → length (sort cmp xs) ≡ length xs
  unfolding sort
  sort-length [] = refl
  sort-length (x ∷ xs) = omega (arith, insert-length x (sort cmp xs), sort-length xs)

  after_all :
      (c : IsConsistent cmp) (x y : A) (ys : List A)
      → is_positive (cmp x y) ≡ false
      → All (λ z. is_positive (cmp y z) ≡ false) ys
      → All (λ z. is_positive (cmp x z) ≡ false) ys
  after_all c x y [] e h = tt
  after_all c x y (z ∷ ys) e h = (c.trans x y z e h.0, after_all c x y ys e h.1)

  behind :
      (c : IsConsistent cmp) (x y : A)
      → is_positive (cmp x y) ≡ true
      → is_positive (cmp y x) ≡ false
  behind c x y e = ground (arith, c.flip x y)

  insert-IsSorted :
      (c : IsConsistent cmp) (x : A) (ys : List A)
      → IsSorted cmp ys
      → IsSorted cmp (insert cmp x ys)
  unfolding insert
  insert-IsSorted c x [] h = (tt, tt)
  insert-IsSorted c x (y ∷ ys) h = elim (Bool-cases (is_positive (cmp x y))) [
    | inl e ↦ rw e (
      insert-All (λ z. is_positive (cmp y z) ≡ false) x ys (behind c x y e) h.0,
      insert-IsSorted c x ys h.1,
    )
    | inr e ↦ rw e ((e, after_all c x y ys e h.0), h)
  ]

  pub sort-IsSorted : (c : IsConsistent cmp) (xs : List A) → IsSorted cmp (sort cmp xs)
  unfolding sort
  sort-IsSorted c [] = tt
  sort-IsSorted c (x ∷ xs) = insert-IsSorted c x (sort cmp xs) (sort-IsSorted c xs)

  -- A class of elements that the comparator does not tell apart.
  abbrev pub IsLevel : (A → Bool) → Type ℓ
  IsLevel q = (a b : A) → q a ≡ true → q b ≡ true → is_positive (cmp a b) ≡ false

  filter-insert :
      (q : A → Bool) (x : A) (ys : List A)
      → IsLevel q
      → filter q (insert cmp x ys) ≡ filter q (x ∷ ys)
  unfolding insert
  filter-insert q x [] level = refl
  filter-insert q x (y ∷ ys) level = elim (Bool-cases (is_positive (cmp x y))) [
    | inl e ↦ rw e (ground (arith, level x y, filter-insert q x ys level))
    | inr e ↦ rw e
  ]

  pub filter-sort : (q : A → Bool) (xs : List A) → IsLevel q → filter q (sort cmp xs) ≡ filter q xs
  unfolding sort
  filter-sort q [] level = refl
  filter-sort q (x ∷ xs) level =
      filter-insert q x (sort cmp xs) level
      ∙ ap (λ rest. if q x then x ∷ rest else rest) (filter-sort q xs level)
