-- ===== src/Server/Auth/Tests.antt =====
-- Logins.
use kafka_manager.Base.{
  ℕ, ◌+◌, ◌≡◌, ◌≤◌, ◌↔◌, refl, Bool, false, Option, none, some, List, [], ◌∷◌, arith, Text, codes,
}
use kafka_manager.Server.Auth.{
  AuthHandler, Credentials, LoginFailures, logged_in, login, credentials_ok, rate_limited,
  record_failure, password_ok,
}
use kafka_manager.Server.Auth.Limit.{
  Attempt, wrong_tries, wrong_tries-le, IsFree, HasPassword, login-logged_in_iff,
}

abbrev no_password : Text → Text → Bool
no_password hash given = false

abbrev one_token : Text → Option Text
one_token username = some (codes "t")

no_failures : Text → Option LoginFailures
no_failures client = none

abbrev handler : AuthHandler
handler = record {
  username = codes "admin";
  password = codes "secret";
  hash = [];
  failures = no_failures;
}

abbrev guess : ℕ → Attempt
guess n = record {
  client = codes "10.0.0.1";
  checked_at = n;
  body = some (record { username = codes "admin"; password = codes "guess" });
  failed_at = n + 1;
}

abbrev guesses : List Attempt
guesses = guess 1 ∷ guess 2 ∷ guess 3 ∷ guess 4 ∷ guess 5 ∷ guess 6 ∷ guess 7 ∷ []

wrong_tries-le_example : wrong_tries no_password one_token (codes "10.0.0.1") guesses handler ≤ 5
unfolding no_failures
wrong_tries-le_example =
    wrong_tries-le no_password one_token (codes "10.0.0.1") 1 guesses handler refl (omega arith)

five_tries : wrong_tries no_password one_token (codes "10.0.0.1") guesses handler ≡ 5
unfolding wrong_tries login rate_limited record_failure credentials_ok password_ok no_failures
five_tries = refl

abbrev right : Credentials
right = record { username = codes "admin"; password = codes "secret" }

login-logged_in_iff_example :
    ((login no_password one_token (codes "10.0.0.1") 7 (some right) 8 handler).1
      ≡ logged_in (codes "t"))
    ↔ (((c : Credentials) × (some right ≡ some c)
          × (c.username ≡ handler.username)
          × HasPassword no_password one_token (codes "10.0.0.1") handler c.password)
        × (one_token handler.username ≡ some (codes "t"))
        × IsFree 7 (no_failures (codes "10.0.0.1")))
login-logged_in_iff_example =
    login-logged_in_iff no_password one_token (codes "10.0.0.1") 7 8 (some right) handler
      (codes "t")
