-- ===== src/Egress/Lifecycle.antt =====
-- The consent vocabulary of src/msks/msks/spec/egress.py: decisions, durations and pins. A time is
-- a number of milliseconds.
use msks.Prelude.{ℕ, ◌*◌, Bool, true, false, Option, none, some, Text}

abbrev pub second : ℕ
second = 1000

-- `pending → allowed | denied | expired | revoked`; `invalid` is any other string
pub data Decision : Type 0 where
  pending allowed denied expired revoked : Decision
  invalid : Text → Decision

abbrev pub is_pending : Decision → Bool
is_pending pending = true
is_pending _ = false

abbrev pub is_allowed : Decision → Bool
is_allowed allowed = true
is_allowed _ = false

abbrev pub is_denied : Decision → Bool
is_denied denied = true
is_denied _ = false

abbrev pub is_revoked : Decision → Bool
is_revoked revoked = true
is_revoked _ = false

-- `decision in (DECISION_ALLOWED, DECISION_DENIED)`
abbrev pub is_verdict : Decision → Bool
is_verdict allowed = true
is_verdict denied = true
is_verdict _ = false

-- `unknown` is a string outside `DURATIONS`
pub data Duration : Type 0 where
  once five_minutes fifteen_minutes tilrestart forever : Duration
  unknown : Text → Duration

-- `duration in DURATIONS`
abbrev pub is_duration : Duration → Bool
is_duration (unknown s) = false
is_duration _ = true

abbrev pub duration_default : Duration
duration_default = tilrestart

abbrev pub is_tilrestart : Option Duration → Bool
is_tilrestart (some tilrestart) = true
is_tilrestart _ = false

abbrev pub is_forever : Option Duration → Bool
is_forever (some forever) = true
is_forever _ = false

-- `DURATION_SECONDS`
abbrev pub duration_seconds : Duration → Option ℕ
duration_seconds five_minutes = some (300 * second)
duration_seconds fifteen_minutes = some (900 * second)
duration_seconds _ = none

abbrev pub once_reject : ℕ
once_reject = 10 * second

abbrev pub long_ttl : ℕ
long_ttl = 30 * 86400 * second

unfoldable pub duration_ttl : Duration → Option ℕ
duration_ttl five_minutes = some (300 * second)
duration_ttl fifteen_minutes = some (900 * second)
duration_ttl tilrestart = some long_ttl
duration_ttl forever = some long_ttl
duration_ttl _ = none

pub record VerdictPin : Type 0 where
  pub is_allow : Bool
  pub ip : Text
  pub port : Option ℕ
  pub ttl : ℕ
