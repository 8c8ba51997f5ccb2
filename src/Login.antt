-- ===== src/Login.antt =====
-- `LoginPage` of web/src/features/auth/LoginPage.tsx: its fields, what it draws, and a login from the
-- click to the answer. `authenticate` and the state of the form stand in Http.
pub mod Offering
mod Tests
use kafka_manager.Base.{
  ℕ, ◌+◌, ◌-◌, Bool, true, false, ◌||◌, Option, none, some, List, [], ◌∷◌, ◌++◌, if◌then◌else◌,
  Text, codes, is_empty, ltb,
}
use kafka_manager.Http.{Response, LoginState, submit_login, login_answered}
use kafka_manager.Markup.{Item, text, button, field, error_items}

pub record Credentials : Type 0 where
  pub username : Text
  pub password : Text

pub record LoginPage : Type 0 where
  pub credentials : Credentials
  pub form : LoginState

pub start : LoginPage
start = record {
  credentials = record { username = codes "admin"; password = [] };
  form = record { error = []; submitting = false };
}

pub data Action : Type 0 where
  type_username type_password : Text → Action
  log_in : Action

abbrev introduction : List (Item Action)
introduction =
    text (codes "Kafka Manager")
    ∷ text (codes "INTERNAL DEVELOPER CONSOLE")
    ∷ text (codes "把 Kafka 日常管理变成一件简单的事。")
    ∷ text (codes "集群状态、Topic、消息与消费组集中在一个轻量控制台。")
    ∷ text (codes "多集群统一查看")
    ∷ text (codes "消息 JSON 自动格式化")
    ∷ text (codes "操作日志按日归档")
    ∷ []

-- The button, and what follows it.
abbrev pub below_error : Bool → List (Item Action)
below_error submitting =
    button (if submitting then codes "正在验证…" else codes "登录") submitting none log_in
    ∷ text (codes "仅供内部 Kafka 日常管理使用")
    ∷ []

pub items : LoginPage → List (Item Action)
items p =
    introduction
    ++ (text (codes "WELCOME BACK")
        ∷ text (codes "登录控制台")
        ∷ text (codes "使用配置文件中的 Web 账户登录")
        ∷ field (codes "用户名") p.credentials.username false type_username
        ∷ field (codes "密码") p.credentials.password false type_password
        ∷ (error_items p.form.error ++ below_error p.form.submitting))

-- What a control does, with the credentials that are sent. Both fields are `required`: the browser
-- submits the form only if neither is empty.
pub act : Action → LoginPage → LoginPage × Option Credentials
act (type_username value) p =
    (record p { credentials = record (p.credentials) { username = value } }, none)
act (type_password value) p =
    (record p { credentials = record (p.credentials) { password = value } }, none)
act log_in p =
    if is_empty p.credentials.username || is_empty p.credentials.password
    then (p, none)
    else (record p { form = submit_login p.form }, some p.credentials)

-- What becomes of the request: a response, or the message of the exception of `fetch`.
pub data Outcome : Type 0 where
  responded : Response → Outcome
  rejected : Text → Outcome

-- `submit` after its `await`, with whether the application is told of the success.
pub answer : Outcome → LoginPage → LoginPage × Bool
answer (responded r) p =
    let (form, success) = login_answered r p.form in (record p { form = form }, success)
answer (rejected message) p =
    (record p { form = record { error = message; submitting = false } }, false)
