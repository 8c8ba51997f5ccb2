-- ===== src/Base/Decimal.antt =====
-- `String(n)` of a natural number. The number itself is fuel enough, for it falls at each digit.
use Prim.Native.Nat.{ℕ, zero, suc, ◌+◌, ◌/◌, ◌%◌}
use mathlib.Core.List.{[], ◌∷◌}
use kafka_manager.Base.Tests.{ltb, if◌then◌else◌, Text}

unfoldable pub digits_from : ℕ → ℕ → Text → Text
digits_from zero n acc = acc
digits_from (suc fuel) n acc =
    let done : Text = (b'0' + n % 10) ∷ acc in
    let rest = digits_from fuel (n / 10) done in if ltb n 10 then done else rest

unfoldable pub decimal : ℕ → Text
unfolding digits_from
decimal n = digits_from (suc n) n []
