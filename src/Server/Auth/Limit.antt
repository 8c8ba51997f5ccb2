-- ===== src/Server/Auth/Limit.antt =====
-- How many wrong passwords a client can try.
use kafka_manager.Base.{
  ℕ, ◌+◌, ◌-◌, ◌≤◌, ◌<◌, ◌≡◌, ◌⊎◌, ◌↔◌, inl, inr, refl, Bool, true, false, Option, none, some, List,
  [], ◌∷◌, arith, if◌then◌else◌, Text, text_eq, text_eq_refl, leb, All, Bool-cases, eq_of_text_eq,
  text_eq_iff, ◌≢◌, sym, some_inj, is_empty, Option-cases,
}
use kafka_manager.Server.Auth.{
  AuthHandler, LoginFailures, Credentials, LoginReply, invalid_credentials, session_error,
  logged_in, window, clear_failures, rate_limited, record_failure, login, credentials_ok,
  password_ok,
}

-- A login that reaches the server: its client, the time of the check, the body, and the time at which
-- a failure is recorded.
pub record Attempt : Type 0 where
  pub client : Text
  pub checked_at : ℕ
  pub body : Option Credentials
  pub failed_at : ℕ

abbrev is_wrong : LoginReply → Bool
is_wrong invalid_credentials = true
is_wrong _ = false

-- The answers to a right account and password, of which the one without a session is an error.
abbrev is_right : LoginReply → Bool
is_right session_error = true
is_right (logged_in token) = true
is_right _ = false

abbrev count : Bool → ℕ
count true = 1
count false = 0

-- Fewer than five failures, or the first of them is five minutes old.
abbrev pub IsFree : ℕ → Option LoginFailures → Type 0
IsFree now none = Unit
IsFree now (some f) = (f.count < 5) ⊎ (window ≤ now - f.first_at)

module _ (verify_password : Text → Text → Bool) (create : Text → Option Text) (client : Text) where
  abbrev step : Attempt → AuthHandler → AuthHandler × LoginReply
  step a h = login verify_password create a.client a.checked_at a.body a.failed_at h

  -- The wrong passwords of the client that are looked at in a run of logins, up to its first login
  -- with the right account and password.
  unfoldable pub wrong_tries : List Attempt → AuthHandler → ℕ
  wrong_tries [] h = 0
  wrong_tries (a ∷ as') h =
      let (h', reply) = step a h in
      let rest = wrong_tries as' h' in
      if text_eq a.client client
      then (if is_right reply then 0 else count (is_wrong reply) + rest)
      else rest

  -- The client has `k` failures, the first of them not before `t`.
  abbrev HasFailed : ℕ → ℕ → AuthHandler → Type 0
  HasFailed t k h =
      ((h.failures client ≡ none) × (k ≡ 0))
      ⊎ ((f : LoginFailures) × (h.failures client ≡ some f)
          × (f.count ≡ k)
          × (t ≤ f.first_at)
          × (k ≤ 5))

  abbrev Within : ℕ → ℕ → Type 0
  Within t now = (t ≤ now) × (now < t + window)

  rate_limited-other :
      (c : Text) (now : ℕ) (h : AuthHandler)
      → text_eq c client ≡ false
      → (rate_limited c now h).0.failures client ≡ h.failures client
  unfolding rate_limited clear_failures
  rate_limited-other c now h e = ground arith

  login-other :
      (c : Text) (now : ℕ) (body : Option Credentials) (failed_at : ℕ) (h : AuthHandler)
      → text_eq c client ≡ false
      → (login verify_password create c now body failed_at h).0.failures client ≡ h.failures client
  unfolding login clear_failures record_failure
  login-other c now body failed_at h e = ground (arith, rate_limited-other c now h e)

  -- Within the time, no failure is forgotten.
  rate_limited-own :
      (t k now : ℕ) (h : AuthHandler)
      → Within t now
      → HasFailed t k h
      → ((rate_limited client now h).0 ≡ h) × ((rate_limited client now h).1 ≡ leb 5 k)
  unfolding rate_limited
  rate_limited-own t k now h w f = ground arith

  login-own :
      (t k now : ℕ) (body : Option Credentials) (failed_at : ℕ) (h : AuthHandler)
      → Within t now
      → Within t failed_at
      → HasFailed t k h
      → let (h', reply) = login verify_password create client now body failed_at h in
        is_right reply ≡ false → HasFailed t (k + count (is_wrong reply)) h'
  unfolding login record_failure
  login-own t k now body failed_at h w v f n =
      ground (arith, rate_limited-own t k now h w f, text_eq_refl client)

  abbrev pub AllWithin : ℕ → List Attempt → Type 0
  AllWithin t = All (λ a. Within t a.checked_at × Within t a.failed_at)

  HasFailed-failures :
      (t k : ℕ) (h h' : AuthHandler)
      → h'.failures client ≡ h.failures client
      → HasFailed t k h
      → HasFailed t k h'
  HasFailed-failures t k h h' e f = ground arith

  own_bounded :
      (t k : ℕ) (rest : AuthHandler → ℕ) (c : Text) (a : Attempt) (h : AuthHandler)
      → c ≡ client
      → Within t a.checked_at
      → Within t a.failed_at
      → HasFailed t k h
      → ((k' : ℕ) (h' : AuthHandler) → HasFailed t k' h' → k' + rest h' ≤ 5)
      → let (h', reply) = login verify_password create c a.checked_at a.body a.failed_at h in
        k + (if is_right reply then 0 else count (is_wrong reply) + rest h') ≤ 5
  own_bounded t k rest c a h e w v f ih = rw e (
      let (h', reply) = login verify_password create client a.checked_at a.body a.failed_at h in
      elim (Bool-cases (is_right reply)) [
        | inl right ↦ rw right (ground arith)
        | inr not_right ↦ rw not_right (
            omega (
              arith,
              ih (k + count (is_wrong reply)) h'
                  (login-own t k a.checked_at a.body a.failed_at h w v f not_right),
            ))
      ])

  wrong_tries-bounded :
      (t k : ℕ) (as' : List Attempt) (h : AuthHandler)
      → AllWithin t as'
      → HasFailed t k h
      → k + wrong_tries as' h ≤ 5
  unfolding wrong_tries
  wrong_tries-bounded t k [] h w f = ground arith
  wrong_tries-bounded t k (a ∷ as') h w f = elim (Bool-cases (text_eq a.client client)) [
    | inl own ↦ rw own (
        own_bounded t k (wrong_tries as') a.client a h (eq_of_text_eq a.client client own) w.0.0
          w.0.1 f λ k' h'. wrong_tries-bounded t k' as' h' w.1)
    | inr other ↦ rw other (
        wrong_tries-bounded t k as' (step a h).0 w.1 (
          HasFailed-failures t k h (step a h).0
            (login-other a.client a.checked_at a.body a.failed_at h other) f))
  ]

  -- Within five minutes, if logins are handled one after another: at most five wrong passwords of a
  -- client with no failures on record are looked at before one of its logins has the right account and
  -- password, whatever other clients do.
  pub wrong_tries-le :
      (t : ℕ) (as' : List Attempt) (h : AuthHandler)
      → h.failures client ≡ none
      → AllWithin t as'
      → wrong_tries as' h ≤ 5
  wrong_tries-le t as' h e w = omega (arith, wrong_tries-bounded t 0 as' h w (inl (e, refl)))

  -- The password is the one that is configured, or, without one, the hash is that of the password.
  abbrev pub HasPassword : AuthHandler → Text → Type 0
  HasPassword h given =
      ((h.password ≢ []) × (given ≡ h.password))
      ⊎ ((h.password ≡ []) × (verify_password h.hash given ≡ true))

  given_iff :
      (password hash given : Text)
      → ((if is_empty password then verify_password hash given else text_eq password given) ≡ true)
        ↔ (((password ≢ []) × (given ≡ password))
            ⊎ ((password ≡ []) × (verify_password hash given ≡ true)))
  given_iff [] hash given =
      (λ e. inr (refl, e), λ h. elim h [ inl (filled, _) ↦ absurd (filled refl) | inr (_, e) ↦ e ])
  given_iff (c ∷ p) hash given = (
    λ e. inl ((λ empty. cc), sym (eq_of_text_eq (c ∷ p) given e)),
    λ h. elim h [ inl (_, e) ↦ rw e (text_eq_refl (c ∷ p)) | inr (empty, _) ↦ absurd cc ],
  )

  password_ok_iff :
      (h : AuthHandler) (given : Text)
      → (password_ok verify_password create h given ≡ true) ↔ HasPassword h given
  unfolding password_ok
  password_ok_iff h given = given_iff h.password h.hash given

  credentials_ok_iff :
      (h : AuthHandler) (c : Credentials)
      → (credentials_ok verify_password create h c ≡ true)
        ↔ ((c.username ≡ h.username) × HasPassword h c.password)
  unfolding credentials_ok
  credentials_ok_iff h c =
      ground (arith, text_eq_iff c.username h.username, password_ok_iff h c.password)

  read_login-logged_in_iff :
      (now failed_at : ℕ) (c : Credentials) (h : AuthHandler) (token : Text)
      → ((login verify_password create client now (some c) failed_at h).1 ≡ logged_in token) ↔ (
          (credentials_ok verify_password create h c ≡ true)
          × (create h.username ≡ some token)
          × IsFree now (h.failures client))
  unfolding login rate_limited clear_failures credentials_ok password_ok
  read_login-logged_in_iff now failed_at c h token = elim (Option-cases (create h.username)) [
    | inl e ↦ rw e (ground arith)
    | inr (t, e) ↦ rw e (ground arith)
  ]

  -- A login of a client is answered with a session exactly if the body is read, its account is the
  -- one that is configured, its password is the one that is configured or, if none is, one that fits
  -- the hash, the session is created, and the client has fewer than five failures on record, or the
  -- first of them is five minutes old.
  pub login-logged_in_iff :
      (now failed_at : ℕ) (body : Option Credentials) (h : AuthHandler) (token : Text)
      → ((login verify_password create client now body failed_at h).1 ≡ logged_in token) ↔ (
          ((c : Credentials) × (body ≡ some c)
            × (c.username ≡ h.username)
            × HasPassword h c.password)
          × (create h.username ≡ some token)
          × IsFree now (h.failures client))
  unfolding login rate_limited clear_failures
  login-logged_in_iff now failed_at none h token = ground arith
  login-logged_in_iff now failed_at (some c) h token = (
    λ e.
        let (right, made, free) = (read_login-logged_in_iff now failed_at c h token).0 e in
        let (name, password) = (credentials_ok_iff h c).0 right in
        ((c, refl, name, password), made, free),
    λ ((d, same, name, password), made, free).
        let e : d ≡ c = sym (some_inj same) in
        (read_login-logged_in_iff now failed_at c h token).1
          ((credentials_ok_iff h c).1 (rw e at name, rw e at password), made, free),
  )
