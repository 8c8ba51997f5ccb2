-- ===== src/Server/Auth/Sessions/Tests.antt =====
-- Tokens.
use kafka_manager.Base.{
  ℕ, zero, suc, ◌+◌, ◌≡◌, ◌≢◌, refl, Option, none, some, List, [], ◌∷◌, ◌++◌, arith, Text, codes,
  All, ap, ◌*◌, ◌/◌, ◌||◌, not, is_empty, ltb, if◌then◌else◌,
}
use kafka_manager.Uri.Bytes.{IsScalar}
use kafka_manager.Server.Auth.Sessions.{
  SessionManager, SessionClaims, Codec, create, verify, sign, second,
}
use kafka_manager.Server.Auth.Sessions.Tokens.{IsCodec, token_of, verify-create, verify-signed}

-- A codec that writes odd numbers only, and so no dot.
odd : Text → Text
odd [] = []
odd (c ∷ t) = (2 * c + 1) ∷ odd t

halves : Text → Text
halves [] = []
halves (c ∷ t) = c / 2 ∷ halves t

halves-odd : (t : Text) → halves (odd t) ≡ t
unfolding halves odd
halves-odd [] = refl
halves-odd (c ∷ t) = let e : (2 * c + 1) / 2 ≡ c = omega arith in rw (e, halves-odd t) refl

no_dots : (t : Text) → All (λ c. c ≢ b'.') (odd t)
unfolding odd
no_dots [] = tt
no_dots (c ∷ t) = (λ e. absurd (omega (arith, e)), no_dots t)

claims_of : Text → Option SessionClaims
claims_of [] = none
claims_of (e ∷ u) = some (record { username = u; expires_at = e })

abbrev odd_codec : Codec
odd_codec = record {
  encode = odd;
  decode = λ t. some (halves t);
  marshal = λ c. c.expires_at ∷ c.username;
  unmarshal = claims_of;
  mac = λ key t. key ++ t;
}

odd_codec-IsCodec : IsCodec odd_codec
unfolding claims_of
odd_codec-IsCodec = record {
  no_dot = no_dots;
  decoded = λ t. ap some (halves-odd t);
  read = λ c valid small. refl;
}

abbrev sevens : ℕ → List ℕ
sevens zero = []
sevens (suc n) = 7 ∷ sevens n

abbrev key : List ℕ
key = sevens 32

abbrev manager : SessionManager
manager = record { key = key; ttl = 12 * 3600 * second }

abbrev token : Text
token = token_of odd_codec manager (43_200 ∷ codes "admin")

created : create odd_codec manager 5 (codes "admin") ≡ some token
unfolding create
created = refl

admin_valid : All IsScalar (codes "admin")
admin_valid = ground arith

verify-create_example : verify odd_codec manager (43_200 * second) token ≡ (
    if is_empty (codes "admin")
      || not (ltb (43_200 * second) ((5 + 12 * 3600 * second) / second * second))
    then none
    else some (codes "admin"))
verify-create_example =
    verify-create odd_codec odd_codec-IsCodec manager 5 (43_200 * second) (codes "admin")
      admin_valid (omega arith) created

accepted : verify odd_codec manager 6 token ≡ some (codes "admin")
accepted =
    verify-create odd_codec odd_codec-IsCodec manager 5 6 (codes "admin") admin_valid (omega arith)
      created

verify-signed_example :
    (encoded : Text) × (signature : Text) × (token ≡ encoded ++ b'.' ∷ signature)
    × (some (halves signature) ≡ some (sign odd_codec manager encoded))
verify-signed_example = verify-signed odd_codec manager 6 token (codes "admin") accepted
