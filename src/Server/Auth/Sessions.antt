-- ===== src/Server/Auth/Sessions.antt =====
-- internal/auth/session.go: signed tokens. A session manager holds its key and the lifetime of a
-- session in nanoseconds; times are nanoseconds after the epoch. Base64, JSON and HMAC are
-- parameters, and the texts of the errors, which the callers drop, are left out.
pub mod Tokens
mod Tests
use kafka_manager.Base.{
  ℕ, ◌+◌, ◌*◌, ◌/◌, ◌||◌, not, Bool, Option, none, some, List, [], ◌∷◌, ◌++◌, if◌then◌else◌, Text,
  text_eq, is_empty, ltb, length,
}
use kafka_manager.Navigation.Routes.{split}

pub record SessionManager : Type 0 where
  pub key : List ℕ
  pub ttl : ℕ

pub record SessionClaims : Type 0 where
  pub username : Text
  pub expires_at : ℕ

-- What the manager uses of the standard library.
pub record Codec : Type 0 where
  pub encode : Text → Text
  pub decode : Text → Option Text
  pub marshal : SessionClaims → Text
  pub unmarshal : Text → Option SessionClaims
  pub mac : List ℕ → Text → Text

abbrev pub second : ℕ
second = 1_000_000_000

module _ (lib : Codec) where
  pub sign : SessionManager → Text → Text
  sign m value = lib.mac m.key value

  -- `none` is the error on a key that is too short.
  pub create : SessionManager → ℕ → Text → Option Text
  create m now username =
      if ltb (length m.key) 32
      then none
      else let payload =
          lib.marshal (record { username = username; expires_at = (now + m.ttl) / second }) in
        some (lib.encode payload ++ b'.' ∷ lib.encode (sign m (lib.encode payload)))

  abbrev check_claims : ℕ → Option SessionClaims → Option Text
  check_claims now none = none
  check_claims now (some c) =
      if is_empty c.username || not (ltb now (c.expires_at * second)) then none else some c.username

  abbrev check_payload : ℕ → Option Text → Option Text
  check_payload now none = none
  check_payload now (some payload) = check_claims now (lib.unmarshal payload)

  abbrev signed : SessionManager → Text → Option Text → Bool
  signed m encoded none = Bool.false
  signed m encoded (some signature) = text_eq signature (sign m encoded)

  abbrev check_parts : SessionManager → ℕ → List Text → Option Text
  check_parts m now (encoded ∷ signature ∷ []) =
      if signed m encoded (lib.decode signature)
      then check_payload now (lib.decode encoded)
      else none
  check_parts m now _ = none

  pub verify : SessionManager → ℕ → Text → Option Text
  verify m now token = check_parts m now (split b'.' token)
