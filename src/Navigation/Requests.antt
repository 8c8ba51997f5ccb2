-- ===== src/Navigation/Requests.antt =====
-- web/src/navigation/request-sequence.ts: numbers for requests, so that late answers are dropped.
use kafka_manager.Base.{ℕ, ◌+◌, Bool, ◌==◌}

pub record RequestSequence : Type 0 where
  pub current : ℕ

pub new : RequestSequence
new = record { current = 0 }

-- The sequence after the call, and the number that the call returns.
unfoldable pub begin : RequestSequence → RequestSequence × ℕ
begin s = let next : RequestSequence = record s { current = s.current + 1 } in (next, next.current)

unfoldable pub is_current : RequestSequence → ℕ → Bool
is_current s request = request == s.current
