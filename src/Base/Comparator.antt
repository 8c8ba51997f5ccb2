-- ===== src/Base/Comparator.antt =====
-- Comparators built from keys and from other comparators are consistent.
use mathlib.Core.Path.{◌≡◌}
use mathlib.Core.Logic.{◌⊎◌}
use mathlib.Core.Bool.{true, false}
use native.Mathlib.Omega.{arith}
use kafka_manager.Base.Int.{
  ℤ, ◌-ℤ◌, ◌<ℤ◌, ◌≤ℤ◌, is_positive, is_zero, is_negative, or_number, is_positive-sub,
  is_negative-sub,
}
use kafka_manager.Base.Sort.{IsConsistent}

-- `x` and `y` are the comparisons of one pair both ways.
abbrev Flipped : ℤ → ℤ → Type 0
Flipped x y = is_positive y ≡ is_negative x

or_number_flip :
    (x x' y y' : ℤ)
    → Flipped x x'
    → Flipped x' x
    → Flipped y y'
    → Flipped (or_number x y) (or_number x' y')
or_number_flip x x' y y' p q r = ground arith

-- `NotAfter x` for a comparison `x`.
abbrev NotAfter : ℤ → Type 0
NotAfter x = is_positive x ≡ false

-- Three elements compared in a circle: the sign of the third comparison is known.
abbrev Circle : ℤ → ℤ → ℤ → Type 0
Circle x y z = NotAfter x → NotAfter y → NotAfter z

or_number_trans :
    (x y z x' y' z' u v w : ℤ)
    → Flipped x x'
    → Flipped y y'
    → Flipped z z'
    → Flipped x' x
    → Flipped y' y
    → Flipped z' z
    → Circle x y z
    → Circle y z' x'
    → Circle z' x y'
    → Circle u v w
    → Circle (or_number x u) (or_number y v) (or_number z w)
or_number_trans x y z x' y' z' u v w a b c d e f g h k l = ground arith

module _ {ℓ} {A : Type ℓ} where
  pub or_number-IsConsistent :
      (f g : A → A → ℤ)
      → IsConsistent f
      → IsConsistent g
      → IsConsistent (λ a b. or_number (f a b) (g a b))
  or_number-IsConsistent f g p q = record {
    flip = λ a b. or_number_flip _ _ _ _ (p.flip a b) (p.flip b a) (q.flip a b);
    trans = λ a b c.
        or_number_trans (f a b) (f b c) (f a c) (f b a) (f c b) (f c a) _ _ _ (p.flip a b)
          (p.flip b c) (p.flip a c) (p.flip b a) (p.flip c b) (p.flip c a) (p.trans a b c)
          (p.trans b c a) (p.trans c a b) (q.trans a b c);
  }

  pub descending-IsConsistent : (key : A → ℤ) → IsConsistent (λ a b. key b -ℤ key a)
  descending-IsConsistent key = record {
    flip = λ a b. ground (arith, is_positive-sub (key a) (key b), is_negative-sub (key b) (key a));
    trans = λ a b c h k. ground (
      arith,
      is_positive-sub (key b) (key a),
      is_positive-sub (key c) (key b),
      is_positive-sub (key c) (key a),
    );
  }

  pub ascending-IsConsistent : (key : A → ℤ) → IsConsistent (λ a b. key a -ℤ key b)
  ascending-IsConsistent key = record {
    flip = λ a b. ground (arith, is_positive-sub (key b) (key a), is_negative-sub (key a) (key b));
    trans = λ a b c h k. ground (
      arith,
      is_positive-sub (key a) (key b),
      is_positive-sub (key b) (key c),
      is_positive-sub (key a) (key c),
    );
  }

  pub on-IsConsistent {κ} :
      {B : Type κ} (f : B → B → ℤ) (key : A → B)
      → IsConsistent f
      → IsConsistent (λ a b. f (key a) (key b))
  on-IsConsistent f key p = record {
    flip = λ a b. p.flip (key a) (key b);
    trans = λ a b c. p.trans (key a) (key b) (key c);
  }

-- What a comparison that is not positive says.
pub or_number_meaning :
    (x y : ℤ)
    → NotAfter (or_number x y)
    → (is_negative x ≡ true) ⊎ ((is_zero x ≡ true) × NotAfter y)
or_number_meaning x y h = ground arith

pub sub_meaning : (a b : ℤ) → NotAfter (a -ℤ b) → a ≤ℤ b
sub_meaning a b h = ground (arith, is_positive-sub a b)

pub sub_or_meaning :
    (a b y : ℤ) → NotAfter (or_number (a -ℤ b) y) → (a <ℤ b) ⊎ ((a ≡ b) × NotAfter y)
unfolding ◌-ℤ◌
sub_or_meaning a b y h = ground arith
