-- ===== src/Http/Failure.antt =====
-- What a page learns of a request that failed.
use kafka_manager.Base.{
  ℕ, ◌≡◌, ◌≢◌, ◌↔◌, ◌⊎◌, refl, sym, ◌∙◌, ==_iff, Bool, true, false, Option, none, some, ◌++◌, ◌==◌,
  arith, Text, codes, is_empty, Bool-cases, inl, inr,
}
use kafka_manager.Base.Decimal.{decimal}
use kafka_manager.Filters.JsonValue.{Json}
use kafka_manager.Http.{
  Response, or_empty_object, or_text, message_or, value, failure, request, login_failed,
  authenticate, LoginState, login_answered,
}

or_text-filled : (v : Option Json) (d : Text) → is_empty d ≡ false → is_empty (or_text v d) ≡ false
or_text-filled v d h = ground arith

message_or-filled :
    (body : Option Json) (d : Text) → is_empty d ≡ false → is_empty (message_or body d) ≡ false
unfolding message_or
message_or-filled body d h = or_text-filled _ d h

abbrev default_message : ℕ → Text
default_message status = codes "请求失败 (" ++ (decimal status ++ codes ")")

-- The cases of `request`, by its two tests.
request-cases :
    (r : Response)
    → ((v : Option Json) × (request r ≡ value v))
      ⊎ ((r.status ≢ 204)
          × (r.is_ok ≡ false)
          × (request r ≡ failure (message_or r.body (default_message r.status)) (r.status == 401)))
unfolding request
request-cases r = elim (Bool-cases (r.status == 204)) [
  | inl empty ↦ inl (none, rw (empty, request))
  | inr more ↦ elim (Bool-cases r.is_ok) [
    | inl ok ↦ inl (some (or_empty_object r.body), rw (more, request) (rw ok refl))
    | inr bad ↦ inr (ground arith, bad, rw (more, request) (rw bad refl))
  ]
]

-- A request fails only if the status is not 204 and the response is not ok. The session is reported
-- as expired exactly if the status is 401. The message is never empty, so that a page, which shows
-- an error only if its text is not empty, shows it.
request-fails :
    (r : Response) (message : Text) (expired : Bool)
    → request r ≡ failure message expired
    → ((r.status ≢ 204) × (r.is_ok ≡ false))
      × ((expired ≡ true) ↔ (r.status ≡ 401))
      × (is_empty message ≡ false)
request-fails r message expired e = elim (request-cases r) [
  | inl (v, given) ↦ cc
  | inr (more, bad, failed) ↦
      let same : failure (message_or r.body (default_message r.status)) (r.status == 401)
          ≡ failure message expired =
        sym failed ∙ e in
      let texts : message_or r.body (default_message r.status) ≡ message = cc in
      let flags : (r.status == 401) ≡ expired = cc in
      (
        (more, bad),
        rw (← flags) (==_iff r.status 401),
        rw (← texts) (message_or-filled r.body (default_message r.status) refl),
      )
]

-- The application is told of a login exactly if the response is ok; otherwise the form shows a
-- message, and in both cases it can be submitted again.
pub login_answered-outcome :
    (r : Response) (s : LoginState)
    → let (t, logged_in) = login_answered r s in
      (t.submitting ≡ false) × (logged_in ≡ r.is_ok) × (r.is_ok ≡ false → is_empty t.error ≡ false)
unfolding login_answered authenticate
login_answered-outcome r s = ground (arith, message_or-filled r.body login_failed refl)
