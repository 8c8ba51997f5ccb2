-- ===== src/Uri/Safety.antt =====
-- An escaped component holds no character that an address gives a meaning to, and is empty only if
-- the component is.
use kafka_manager.Base.{
  ℕ, ◌/◌, ◌%◌, ◌<◌, ◌≡◌, refl, sym, ◌≢◌, inl, inr, some, List, [], ◌∷◌, true, false, arith, Text,
  All, All-append, Bool-cases, map-eq-some,
}
use mathlib.Core.Option
use kafka_manager.Uri.RoundTrip.{decode-encode}
use kafka_manager.Uri.CodePoints.{AreUnits, utf16s-code_points}
use kafka_manager.Uri.Bytes.{IsScalar, utf8_bounds}
use kafka_manager.Uri.{
  is_unreserved, hex_digit, clear, code_points, utf8, percents, escape, escapes,
  encode_uri_component, unescape, assemble, decode_uri_component,
}

-- A text without the character `k`.
abbrev pub Avoids : ℕ → Text → Type 0
Avoids k = All (λ c. c ≢ k)

abbrev pub NoSlash : Text → Type 0
NoSlash = Avoids b'/'

hex_digit-unreserved : (n : ℕ) → n < 16 → is_unreserved (hex_digit n) ≡ true
unfolding hex_digit is_unreserved
hex_digit-unreserved n h = ground arith

-- Any character that is neither unreserved nor the percent sign is escaped.
module _ (k : ℕ) (reserved : is_unreserved k ≡ false) (no_percent : k ≢ b'%') where
  unreserved-ne : (c : ℕ) → is_unreserved c ≡ true → c ≢ k
  unreserved-ne c h e = cc (rw e at h, reserved)

  percents-Avoids : (bs : List ℕ) → All (λ b. b < 256) bs → Avoids k (percents bs)
  unfolding percents
  percents-Avoids [] h = tt
  percents-Avoids (b ∷ bs) h =
      let digit : (n : ℕ) → n < 16 → hex_digit n ≢ k =
        λ n l. unreserved-ne (hex_digit n) (hex_digit-unreserved n l) in
      (
        λ e. no_percent (sym e),
        (digit (b / 16) (omega arith), (digit (b % 16) (omega arith), percents-Avoids bs h.1)),
      )

  escape-Avoids : (p : ℕ) → IsScalar p → Avoids k (escape p)
  unfolding escape
  escape-Avoids p v = elim (Bool-cases (is_unreserved p)) [
    | inl h ↦ rw h (unreserved-ne p h, tt)
    | inr h ↦ rw h (percents-Avoids (utf8 p) (utf8_bounds p v))
  ]

  escapes-Avoids : (ps : List ℕ) → All IsScalar ps → Avoids k (escapes ps)
  unfolding escapes
  escapes-Avoids [] v = tt
  escapes-Avoids (p ∷ ps) v =
      All-append (λ c. c ≢ k) (escape p) (escapes ps) (escape-Avoids p v.0) (escapes-Avoids ps v.1)

  pub encode-Avoids :
      (s : Text) {t : Text} → AreUnits s → encode_uri_component s ≡ some t → Avoids k t
  unfolding encode_uri_component
  encode-Avoids s u e =
      let (ps, f, g) = map-eq-some escapes (code_points clear s) e in
      rw g (escapes-Avoids ps (utf16s-code_points clear s u tt f).1)

pub encode-NoSlash :
    (s : Text) {t : Text} → AreUnits s → encode_uri_component s ≡ some t → NoSlash t
unfolding is_unreserved
encode-NoSlash s u e = encode-Avoids b'/' refl (omega arith) s u e

decode_nil : decode_uri_component [] ≡ some []
unfolding decode_uri_component unescape assemble Option.bind
decode_nil = refl

pub decode_dot : decode_uri_component (b'.' ∷ []) ≡ some (b'.' ∷ [])
unfolding decode_uri_component unescape assemble Option.bind
decode_dot = refl

pub decode_two_dots : decode_uri_component (b'.' ∷ b'.' ∷ []) ≡ some (b'.' ∷ b'.' ∷ [])
unfolding decode_uri_component unescape assemble Option.bind
decode_two_dots = refl

pub encode-ne-nil :
    (s : Text) {t : Text} → AreUnits s → s ≢ [] → encode_uri_component s ≡ some t → t ≢ []
encode-ne-nil s u h e empty = h (cc (decode-encode s u e, decode_nil))
