-- ===== src/Uri/RoundTrip.antt =====
-- Decoding undoes encoding.
use mathlib.Core.Option
use kafka_manager.Base.{
  ℕ, ◌<◌, ◌≡◌, refl, ◌≢◌, inl, inr, true, some, List, [], ◌∷◌, ◌++◌, arith, Text, All, Bool-cases,
  map-eq-some,
}
use kafka_manager.Uri.{
  is_unreserved, clear, utf8, utf16, escape, escapes, encode_uri_component, plain, Piece, raw,
  unescape, start, assemble, decode_uri_component,
}
use kafka_manager.Uri.Bytes.{
  bytes, unescape-percents, IsScalar, utf8_bounds, utf16_small, assemble-utf8,
}
use kafka_manager.Uri.CodePoints.{utf16s, AreUnits, utf16s-code_points}

-- An unreserved character is its own escape, and no percent sign.
pub unreserved_bounds : (p : ℕ) → is_unreserved p ≡ true → (p < 0x80) × (p ≢ b'%') × (p ≢ b'/')
unfolding is_unreserved
unreserved_bounds p h = ground arith

unescape_raw :
    (c : ℕ) (s : Text) {ps : List Piece}
    → c ≢ b'%'
    → unescape plain s ≡ some ps
    → unescape plain (c ∷ s) ≡ some (raw c ∷ ps)
unfolding unescape
unescape_raw c s h e = ground arith

assemble_raw :
    (c : ℕ) (ps : List Piece) {t : Text}
    → assemble start ps ≡ some t
    → assemble start (raw c ∷ ps) ≡ some (c ∷ t)
unfolding assemble
assemble_raw c ps e = rw e

-- The decoder, one escaped code point at a time.
decode-escape :
    (p : ℕ) (s : Text) {ps : List Piece} {t : Text}
    → IsScalar p
    → unescape plain s ≡ some ps
    → assemble start ps ≡ some t
    → (qs : List Piece) × (unescape plain (escape p ++ s) ≡ some qs)
      × (assemble start qs ≡ some (utf16 p ++ t))
unfolding escape
decode-escape p s {ps} v e f = elim (Bool-cases (is_unreserved p)) [
  | inl h ↦
      let (small, ne, _) = unreserved_bounds p h in
      (
        raw p ∷ ps,
        rw h (unescape_raw p s ne e),
        rw (utf16_small p (omega arith)) (assemble_raw p ps f),
      )
  | inr h ↦ (
    bytes (utf8 p) ++ ps,
    rw h (unescape-percents (utf8 p) s (utf8_bounds p v) e),
    assemble-utf8 p ps v f,
  )
]

decode-escapes :
    (ps : List ℕ)
    → All IsScalar ps
    → (qs : List Piece) × (unescape plain (escapes ps) ≡ some qs)
      × (assemble start qs ≡ some (utf16s ps))
unfolding escapes utf16s unescape assemble
decode-escapes [] v = ([], refl, refl)
decode-escapes (p ∷ ps) v =
    let (qs, e, f) = decode-escapes ps v.1 in decode-escape p (escapes ps) v.0 e f

-- Whatever `encodeURIComponent` makes of a string of 16-bit code units, `decodeURIComponent` gives
-- the string back.
pub decode-encode :
    (s : Text) {t : Text}
    → AreUnits s
    → encode_uri_component s ≡ some t
    → decode_uri_component t ≡ some s
unfolding encode_uri_component decode_uri_component Option.bind
decode-encode s u e =
    let (ps, f, g) = map-eq-some escapes _ e in
    let (spelt, scalars) = utf16s-code_points clear s u tt f in
    let (qs, scanned, assembled) = decode-escapes ps scalars in rw (g, scanned, assembled, spelt)
