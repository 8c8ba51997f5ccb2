-- ===== src/Feedback/Serials.antt =====
-- The ids of notifications: the serial number that an id ends with.
use kafka_manager.Base.{
  ℕ, zero, suc, ◌+◌, ◌-◌, ◌*◌, ◌/◌, ◌%◌, ◌<◌, ◌≡◌, refl, sym, ap, ◌∙◌, inl, inr, Bool-cases, [],
  ◌∷◌, ◌++◌, arith, ◌==◌, ltb, if◌then◌else◌, Text, codes,
}
use kafka_manager.Base.Decimal.{decimal, digits_from}

-- What the digits after the last dash of a text add to a number.
abbrev serial_from : ℕ → Text → ℕ
serial_from n [] = n
serial_from n (c ∷ t) = serial_from (if c == 45 then 0 else n * 10 + (c - 48)) t

abbrev pub serial_of : Text → ℕ
serial_of id = serial_from 0 id

serial_from-append : (s : Text) (n : ℕ) (t : Text) → serial_from n (s ++ 45 ∷ t) ≡ serial_of t
serial_from-append [] n t = refl
serial_from-append (c ∷ s) n t = serial_from-append s _ t

-- One digit.
serial_from-digit :
    (n d : ℕ) (t : Text) → serial_from n ((b'0' + d) ∷ t) ≡ serial_from (n * 10 + d) t
serial_from-digit n d t =
    let same : (if b'0' + d == 45 then 0 else n * 10 + (b'0' + d - 48)) ≡ n * 10 + d =
      ground arith in
    ap (λ k. serial_from k t) same

serial_from-digits_from :
    (fuel n : ℕ) (acc : Text) → n < fuel → serial_of (digits_from fuel n acc) ≡ serial_from n acc
unfolding digits_from
serial_from-digits_from zero n acc h = absurd (omega (arith, h))
serial_from-digits_from (suc fuel) n acc h =
    let last : serial_from (n / 10) ((b'0' + n % 10) ∷ acc) ≡ serial_from n acc =
      serial_from-digit (n / 10) (n % 10) acc ∙ ap (λ k. serial_from k acc) (omega arith) in
    elim (Bool-cases (ltb n 10)) [
      | inl e ↦
          let small : n < 10 = ground arith in
          let nothing : n / 10 ≡ 0 = omega (arith, small) in
          rw e (ap (λ k. serial_from k ((b'0' + n % 10) ∷ acc)) (sym nothing) ∙ last)
      | inr e ↦
          rw e (serial_from-digits_from fuel (n / 10) ((b'0' + n % 10) ∷ acc) (ground arith) ∙ last)
    ]

pub serial_of-id :
    (now serial : ℕ) → serial_of (decimal now ++ (codes "-" ++ decimal serial)) ≡ serial
unfolding decimal
serial_of-id now serial =
    serial_from-append (decimal now) 0 (decimal serial)
    ∙ serial_from-digits_from (suc serial) serial [] (omega arith)
