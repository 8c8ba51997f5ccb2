-- ===== src/Server/Auth.antt =====
-- internal/api/auth.go: the handler of logins, which refuses a client after five failures. The table
-- of failures is a function of the client, and its lock is left out: a login is one step here, so
-- logins come one after another. Times are nanoseconds. `verify_password` and the decoding of a body
-- are parameters; `create` is the session manager's Create.
pub mod Sessions
pub mod Limit
mod Tests
use kafka_manager.Base.{
  ℕ, ◌+◌, ◌-◌, ◌*◌, Bool, true, false, not, ◌&&◌, ◌||◌, Option, none, some, if◌then◌else◌, Text,
  text_eq, is_empty, leb,
}

pub record LoginFailures : Type 0 where
  pub count : ℕ
  pub first_at : ℕ

pub record Credentials : Type 0 where
  pub username : Text
  pub password : Text

pub record AuthHandler : Type 0 where
  pub username : Text
  pub password : Text
  pub hash : Text
  pub failures : Text → Option LoginFailures

abbrev pub write :
    Text → Option LoginFailures → (Text → Option LoginFailures) → Text → Option LoginFailures
write client f failures other = if text_eq client other then f else failures other

-- `5 * time.Minute`
abbrev pub window : ℕ
window = 5 * 60 * 1_000_000_000

-- `now.Sub(failure.firstAt) >= 5*time.Minute`
abbrev pub is_over : LoginFailures → ℕ → Bool
is_over f now = leb window (now - f.first_at)

pub clear_failures : Text → AuthHandler → AuthHandler
clear_failures client h = record h { failures = write client none h.failures }

pub rate_limited : Text → ℕ → AuthHandler → AuthHandler × Bool
rate_limited client now h = elim (h.failures client) [
  | none ↦ (h, false)
  | some f ↦ if is_over f now then (clear_failures client h, false) else (h, leb 5 f.count)
]

abbrev failed_again : Option LoginFailures → ℕ → LoginFailures
failed_again none now = record { count = 1; first_at = now }
failed_again (some f) now =
    if is_over f now then record { count = 1; first_at = now } else record f { count = f.count + 1 }

pub record_failure : Text → ℕ → AuthHandler → AuthHandler
record_failure client now h = record h {
  failures = write client (some (failed_again (h.failures client) now)) h.failures;
}

-- The answer to a login: its status and the code of its error, or the token that the cookie carries.
pub data LoginReply : Type 0 where
  too_many_attempts invalid_request invalid_credentials session_error : LoginReply
  logged_in : Text → LoginReply

module _ (verify_password : Text → Text → Bool) (create : Text → Option Text) where
  pub password_ok : AuthHandler → Text → Bool
  password_ok h given =
      if is_empty h.password then verify_password h.hash given else text_eq h.password given

  pub credentials_ok : AuthHandler → Credentials → Bool
  credentials_ok h c = text_eq c.username h.username && password_ok h c.password

  abbrev session_reply : Option Text → LoginReply
  session_reply none = session_error
  session_reply (some token) = logged_in token

  -- A login of a client: the time of the check, the body as it is decoded, and the time at which a
  -- failure is recorded.
  pub login : Text → ℕ → Option Credentials → ℕ → AuthHandler → AuthHandler × LoginReply
  login client now body failed_at h =
      let (h', limited) = rate_limited client now h in
      if limited then (h', too_many_attempts) else elim body [
        | none ↦ (h', invalid_request)
        | some c ↦
            if credentials_ok h' c
            then (clear_failures client h', session_reply (create h'.username))
            else (record_failure client failed_at h', invalid_credentials)
      ]
