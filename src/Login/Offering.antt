-- ===== src/Login/Offering.antt =====
-- When the page offers to log in.
use kafka_manager.Base.{
  ℕ, ◌+◌, ◌-◌, ◌≡◌, ◌↔◌, ◌<◌, ◌≤◌, refl, Bool, true, false, Option, none, some, arith,
}
use kafka_manager.Http.{submit_login, login_answered}
use kafka_manager.Markup.{Offered, Offered-append, Offered-error_items, error_items}
use kafka_manager.Login.{
  LoginPage, Credentials, start, Action, type_username, type_password, log_in, items, below_error,
  act, Outcome, responded, rejected, answer,
}

-- The page with the requests that are not yet answered.
pub record LoginRun : Type 0 where
  pub page : LoginPage
  pub pending : ℕ

abbrev count : Option Credentials → ℕ
count none = 0
count (some c) = 1

abbrev pub acted : Action → LoginRun → LoginRun
acted a r =
    let (page, sent) = act a r.page in record { page = page; pending = r.pending + count sent }

abbrev pub answered : Outcome → LoginRun → LoginRun
answered o r = record { page = (answer o r.page).0; pending = r.pending - 1 }

-- What happens to the page: what a reader does with the controls that it offers, and answers to
-- requests that are pending.
pub data Reached : LoginRun → Type 0 where
  first : Reached (record { page = start; pending = 0 })
  acts : {r : LoginRun} (a : Action) → Reached r → Offered a (items r.page) → Reached (acted a r)
  answers : {r : LoginRun} (o : Outcome) → Reached r → 0 < r.pending → Reached (answered o r)

abbrev pending_of : Bool → ℕ
pending_of true = 1
pending_of false = 0

abbrev IsTracked : LoginRun → Type 0
IsTracked r = r.pending ≡ pending_of r.page.form.submitting

below_error-offers_iff : (b : Bool) → Offered log_in (below_error b) ↔ (b ≡ false)
below_error-offers_iff true = ground arith
below_error-offers_iff false = ground arith

items-offer_iff : (p : LoginPage) → Offered log_in (items p) ↔ (p.form.submitting ≡ false)
unfolding items
items-offer_iff p = ground (
  arith,
  Offered-append log_in (error_items p.form.error) (below_error p.form.submitting),
  Offered-error_items log_in p.form.error,
  below_error-offers_iff p.form.submitting,
)

acted-IsTracked :
    (a : Action) (r : LoginRun) → IsTracked r → Offered a (items r.page) → IsTracked (acted a r)
unfolding act submit_login
acted-IsTracked (type_username v) r h o = ground arith
acted-IsTracked (type_password v) r h o = ground arith
acted-IsTracked log_in r h o = ground (arith, items-offer_iff r.page)

answered-IsTracked :
    (o : Outcome) (r : LoginRun) → IsTracked r → 0 < r.pending → IsTracked (answered o r)
unfolding answer login_answered
answered-IsTracked (responded x) r h p = ground arith
answered-IsTracked (rejected message) r h p = ground arith

Reached-IsTracked : {r : LoginRun} → Reached r → IsTracked r
unfolding start
Reached-IsTracked first = refl
Reached-IsTracked (acts {r} a h o) = acted-IsTracked a r (Reached-IsTracked h) o
Reached-IsTracked (answers {r} o h p) = answered-IsTracked o r (Reached-IsTracked h) p

-- Whatever a reader does with the controls that the page offers, and however the requests are
-- answered: at most one request is pending, and the page offers to log in exactly if none is.
pub log_in-Offered_iff :
    {r : LoginRun} → Reached r → (r.pending ≤ 1) × (Offered log_in (items r.page) ↔ (r.pending ≡ 0))
log_in-Offered_iff {r} h = ground (arith, items-offer_iff r.page, Reached-IsTracked h)
