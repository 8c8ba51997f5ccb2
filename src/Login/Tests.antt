-- ===== src/Login/Tests.antt =====
-- A login that is refused.
use kafka_manager.Base.{◌≡◌, ◌≤◌, ◌↔◌, refl, inl, inr, false, none, codes, arith}
use kafka_manager.Markup.{Offered}
use kafka_manager.Login.{start, type_password, log_in, items, act, Outcome, responded}
use kafka_manager.Login.Offering.{
  LoginRun, acted, answered, first, acts, answers, log_in-Offered_iff,
}

abbrev typed_run : LoginRun
typed_run = acted (type_password (codes "secret")) (record { page = start; pending = 0 })

abbrev sent_run : LoginRun
sent_run = acted log_in typed_run

abbrev refused : Outcome
refused = responded (record { status = 401; is_ok = false; body = none })

offers_password : Offered (type_password (codes "secret")) (items start)
unfolding items start
offers_password =
    inr (inr (inr (inr (inr (inr (inr (inr (inr (inr (inr (inl (codes "secret", refl))))))))))))

offers_log_in : Offered log_in (items typed_run.page)
unfolding items start act
offers_log_in = inr (inr (inr (inr (inr (inr (inr (inr (inr (inr (inr (inr (inl refl))))))))))))

one_sent : sent_run.pending ≡ 1
unfolding start act
one_sent = refl

log_in-Offered_iff_example :
    ((answered refused sent_run).pending ≤ 1)
    × (Offered log_in (items (answered refused sent_run).page)
        ↔ ((answered refused sent_run).pending ≡ 0))
log_in-Offered_iff_example = log_in-Offered_iff {r = answered refused sent_run} (
    answers refused
      (acts log_in (acts (type_password (codes "secret")) first offers_password) offers_log_in)
      (omega (arith, one_sent)))
