-- ===== src/Server/Auth/Sessions/Tokens.antt =====
-- Which tokens are accepted, and for how long.
use kafka_manager.Base.{
  ℕ, ◌+◌, ◌*◌, ◌/◌, ◌≡◌, ◌≢◌, ◌∙◌, refl, ap, ◌||◌, not, true, Bool-cases, inl, inr, Option, none,
  some, List, [], ◌∷◌, ◌++◌, arith, if◌then◌else◌, Text, text_eq_refl, eq_of_text_eq, sym, is_empty,
  ltb, All, ◌<◌, ◌^◌,
}
use kafka_manager.Uri.Bytes.{IsScalar}
use kafka_manager.Navigation.Routes.{split}
use kafka_manager.Navigation.Routes.Split.{join, join-split, split_last, split-append}
use kafka_manager.Server.Auth.Sessions.{
  SessionManager, SessionClaims, Codec, second, sign, create, verify, check_claims, signed,
  check_parts,
}

-- What the library does: a text that is encoded holds no dot, and what is encoded is decoded again;
-- claims are read back from JSON if the account is a list of Unicode scalar values, which is what
-- valid UTF-8 stands for, and the expiry is an `int64`. JSON and signatures are lists of bytes.
pub record IsCodec (lib : Codec) : Type 0 where
  pub no_dot : (t : Text) → All (λ c. c ≢ b'.') (lib.encode t)
  pub decoded : (t : Text) → lib.decode (lib.encode t) ≡ some t
  pub read :
      (c : SessionClaims)
      → All IsScalar c.username
      → c.expires_at < 2 ^ 63
      → lib.unmarshal (lib.marshal c) ≡ some c

module _ (lib : Codec) where
  -- The token of a payload.
  abbrev pub token_of : SessionManager → Text → Text
  token_of m payload = lib.encode payload ++ b'.' ∷ lib.encode (sign lib m (lib.encode payload))

  verify-token_of :
      (law : IsCodec lib) (m : SessionManager) (later : ℕ) (payload : Text)
      → verify lib m later (token_of m payload) ≡ check_claims lib later (lib.unmarshal payload)
  unfolding verify
  verify-token_of law m later payload =
      let encoded = lib.encode payload in
      let signature = sign lib m encoded in
      rw
        (
          split-append b'.' encoded (lib.encode signature) (law.no_dot payload),
          split_last b'.' (lib.encode signature) (law.no_dot signature),
          law.decoded signature,
          text_eq_refl signature,
          law.decoded payload,
        )
        refl

  -- A token that the manager creates for an account that is valid Unicode, with an expiry in seconds
  -- below 2^63, is accepted under the same key, for the account it was created
  -- for, until it expires, a lifetime after its creation rounded down to seconds, and no longer. A
  -- token for the empty account is never accepted.
  pub verify-create :
      (law : IsCodec lib) (m : SessionManager) (now later : ℕ) (username : Text) {token : Text}
      → All IsScalar username
      → (now + m.ttl) / second < 2 ^ 63
      → create lib m now username ≡ some token
      → verify lib m later token ≡ (
          if is_empty username || not (ltb later ((now + m.ttl) / second * second))
          then none
          else some username)
  unfolding create
  verify-create law m now later username {token} valid small e =
      let claims : SessionClaims = record {
        username = username;
        expires_at = (now + m.ttl) / second;
      } in
      let made : token_of m (lib.marshal claims) ≡ token = ground arith in
      rw (← made)
        (verify-token_of law m later (lib.marshal claims) ∙ rw (law.read claims valid small) refl)

  signed_lem :
      (m : SessionManager) (encoded : Text) (o : Option Text)
      → signed lib m encoded o ≡ true
      → o ≡ some (sign lib m encoded)
  signed_lem m encoded none h = cc
  signed_lem m encoded (some t) h = ap some (eq_of_text_eq t (sign lib m encoded) h)

  -- A token that is accepted is a text, a dot, and what decodes to the code of the text under the key
  -- of the manager.
  pub verify-signed :
      (m : SessionManager) (now : ℕ) (token username : Text)
      → verify lib m now token ≡ some username
      → (encoded : Text) × (signature : Text) × (token ≡ encoded ++ b'.' ∷ signature)
        × (lib.decode signature ≡ some (sign lib m encoded))
  unfolding verify
  verify-signed m now token username e = parts (split b'.' token) (join-split b'.' token) e
    where
      parts :
          (ps : List Text)
          → join b'.' ps ≡ token
          → check_parts lib m now ps ≡ some username
          → (encoded : Text) × (signature : Text) × (token ≡ encoded ++ b'.' ∷ signature)
            × (lib.decode signature ≡ some (sign lib m encoded))
      parts [] j h = cc
      parts (a ∷ []) j h = cc
      parts (a ∷ b ∷ []) j h = elim (Bool-cases (signed lib m a (lib.decode b))) [
        | inl right ↦ (a, b, sym j, signed_lem m a (lib.decode b) right)
        | inr wrong ↦ (let h' : none ≡ some username = rw wrong at h in cc)
      ]
      parts (a ∷ b ∷ c ∷ ps) j h = cc
