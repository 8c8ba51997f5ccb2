-- ===== src/Http.antt =====
-- web/src/lib/api.ts and `authenticate` of web/src/features/auth/LoginPage.tsx: what a page makes of
-- a response. A message that the server sends is a string; a body that is no JSON is `none`.
pub mod Calls
pub mod Failure
mod Tests
use kafka_manager.Base.{
  ℕ, Bool, true, false, Option, none, some, List, [], ◌∷◌, ◌++◌, ◌==◌, if◌then◌else◌, Text, codes,
  is_empty,
}
use kafka_manager.Base.Decimal.{decimal}
use kafka_manager.Filters.JsonValue.{Json, string, object, end, property}

pub record Response : Type 0 where
  pub status : ℕ
  pub is_ok : Bool
  pub body : Option Json

abbrev property_of : Text → Option Json → Option Json
property_of name (some (object ms)) = property name ms
property_of name _ = none

abbrev or_text : Option Json → Text → Text
or_text (some (string s)) d = if is_empty s then d else s
or_text _ d = d

-- `body?.error?.message || d`
pub message_or : Option Json → Text → Text
message_or body d = or_text (property_of (codes "message") (property_of (codes "error") body)) d

-- What the promise becomes. `failure` carries the message of the error, and whether the event
-- `session-expired` is dispatched before.
pub data RequestOutcome : Type 0 where
  value : Option Json → RequestOutcome
  failure : Text → Bool → RequestOutcome

abbrev or_empty_object : Option Json → Json
or_empty_object none = object end
or_empty_object (some v) = v

pub request : Response → RequestOutcome
request r =
    if r.status == 204
    then value none
    else if r.is_ok
    then value (some (or_empty_object r.body))
    else failure (message_or r.body (codes "请求失败 (" ++ (decimal r.status ++ codes ")")))
        (r.status == 401)

abbrev pub login_failed : Text
login_failed = codes "登录失败，请稍后重试"

-- The message of the error that `authenticate` throws, if it throws one.
unfoldable pub authenticate : Response → Option Text
authenticate r = if r.is_ok then none else some (message_or r.body login_failed)

-- The form of the login page.
pub record LoginState : Type 0 where
  pub error : Text
  pub submitting : Bool

unfoldable pub submit_login : LoginState → LoginState
submit_login s = record s { error = []; submitting = true }

-- `submit` after its `await`, with whether the application is told of the success.
unfoldable pub login_answered : Response → LoginState → LoginState × Bool
login_answered r s = elim (authenticate r) [
  | none ↦ (record s { submitting = false }, true)
  | some message ↦ (record s { error = message; submitting = false }, false)
]
