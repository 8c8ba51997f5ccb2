-- ===== src/Http/Tests.antt =====
-- A request of a session that has expired.
use kafka_manager.Base.{◌≡◌, refl, true, false, none, codes}
use kafka_manager.Base.Decimal.{decimal, digits_from}
use kafka_manager.Http.{Response, request, failure, message_or}

abbrev unauthorized : Response
unauthorized = record { status = 401; is_ok = false; body = none }

unauthorized_fails : request unauthorized ≡ failure (codes "请求失败 (401)") true
unfolding request message_or decimal digits_from
unauthorized_fails = refl
