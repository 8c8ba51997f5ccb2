-- ===== src/Base/Search.antt =====
-- Methods of strings that the pages search with: `trim`, `startsWith`, `includes`, `slice`.
use Prim.Native.Nat.{ℕ}
use mathlib.Core.Path.{◌≡◌, refl, ap, ◌∙◌}
use mathlib.Core.Bool.{Bool, true, false, ◌&&◌, ◌||◌}
use mathlib.Core.Logic.{◌↔◌, inl, inr}
use mathlib.Core.List.{[], ◌∷◌, ◌++◌, reverse}
use native.Mathlib.Omega.{arith}
use kafka_manager.Base.Tests.{leb, ◌==◌, if◌then◌else◌, Text, Bool-cases}

-- The white space and the line terminators of ECMAScript.
unfoldable pub is_space : ℕ → Bool
is_space c =
    leb 9 c && leb c 13
    || c == 0x20
    || c == 0xA0
    || c == 0x1680
    || leb 0x2000 c && leb c 0x200A
    || c == 0x2028
    || c == 0x2029
    || c == 0x202F
    || c == 0x205F
    || c == 0x3000
    || c == 0xFEFF

unfoldable pub trim_start : Text → Text
trim_start [] = []
trim_start (c ∷ s) = let rest = trim_start s in if is_space c then rest else c ∷ s

unfoldable pub trim : Text → Text
unfolding trim_start is_space
trim s = reverse (trim_start (reverse (trim_start s)))

unfoldable pub starts_with : Text → Text → Bool
starts_with s [] = true
starts_with [] (d ∷ t) = false
starts_with (c ∷ s) (d ∷ t) = c == d && starts_with s t

unfoldable pub includes : Text → Text → Bool
unfolding starts_with
includes [] t = starts_with [] t
includes (c ∷ s) t = starts_with (c ∷ s) t || includes s t

starts_with_tail : (c : ℕ) (s t : Text) → starts_with (c ∷ s) (c ∷ t) ≡ starts_with s t
unfolding starts_with
starts_with_tail c s t = ground arith

starts_with-append : (t rest : Text) → starts_with (t ++ rest) t ≡ true
unfolding starts_with
starts_with-append [] rest = refl
starts_with-append (d ∷ t) rest = starts_with_tail d (t ++ rest) t ∙ starts_with-append t rest

starts_with_split : (s t : Text) → starts_with s t ≡ true → (rest : Text) × (s ≡ t ++ rest)
unfolding starts_with
starts_with_split s [] h = (s, refl)
starts_with_split [] (d ∷ t) h = cc
starts_with_split (c ∷ s) (d ∷ t) h =
    let (rest, e) = starts_with_split s t (ground arith) in (rest, ground (arith, e))

pub starts_with_iff : (s t : Text) → (starts_with s t ≡ true) ↔ ((rest : Text) × (s ≡ t ++ rest))
starts_with_iff s t = (starts_with_split s t, λ (rest, e). rw e (starts_with-append t rest))

-- A text includes a term exactly if the term stands somewhere in it.
abbrev pub Occurs : Text → Text → Type 0
Occurs t s = (before : Text) × (after : Text) × (s ≡ before ++ (t ++ after))

includes_sound : (s t : Text) → includes s t ≡ true → Occurs t s
unfolding includes
includes_sound [] t h = let (rest, e) = starts_with_split [] t h in ([], rest, e)
includes_sound (c ∷ s) t h = elim (Bool-cases (starts_with (c ∷ s) t)) [
  | inl here ↦ let (rest, e) = starts_with_split (c ∷ s) t here in ([], rest, e)
  | inr later ↦
      let (before, after, e) = includes_sound s t (ground arith) in
      (c ∷ before, after, ap (◌∷◌ c) e)
]

includes_of_starts_with : (s t : Text) → starts_with s t ≡ true → includes s t ≡ true
unfolding includes
includes_of_starts_with [] t h = h
includes_of_starts_with (c ∷ s) t h = rw h

includes-append : (before t after : Text) → includes (before ++ (t ++ after)) t ≡ true
unfolding includes
includes-append [] t after = includes_of_starts_with (t ++ after) t (starts_with-append t after)
includes-append (c ∷ before) t after = ground (arith, includes-append before t after)

pub includes_iff : (s t : Text) → (includes s t ≡ true) ↔ Occurs t s
includes_iff s t = (includes_sound s t, λ (before, after, e). rw e (includes-append before t after))
