-- ===== src/Consent/Row.antt =====
-- One row of the `egress_consent` table (src/msks/msks/model/egress_consent.py) and the tests that
-- its queries make. A time is a number of milliseconds.
use msks.Prelude.{
  ℕ, ◌+◌, ◌*◌, Bool, true, false, not, ◌&&◌, Option, none, some, Text, text_eq, ltb, ◌==◌, is_none,
  if◌then◌else◌,
}
use msks.Egress.Lifecycle.{
  Decision, pending, allowed, denied, expired, revoked, invalid, is_pending, is_verdict, Duration,
  once, five_minutes, fifteen_minutes, tilrestart, forever, unknown, second,
}

pub record EgressConsent : Type 0 where
  pub id : Text
  pub workspace_id : Text
  pub dest_host : Text
  pub dest_port : ℕ
  pub decision : Decision
  pub duration : Option Duration
  pub requested_at : ℕ
  pub decided_at : Option ℕ
  pub decided_by : Option Text
  pub revoked_at : Option ℕ
  pub revoked_by : Option Text
  pub hmac : Option Text

-- `duration_in_effect` past the `None` test
abbrev pub still_runs : Option Duration → ℕ → ℕ → Bool
still_runs none decided now = false
still_runs (some tilrestart) decided now = true
still_runs (some forever) decided now = true
still_runs (some once) decided now = false
still_runs (some five_minutes) decided now = ltb now (decided + 300 * second)
still_runs (some fifteen_minutes) decided now = ltb now (decided + 900 * second)
still_runs (some (unknown s)) decided now = false

unfoldable pub duration_in_effect : Option Duration → Option ℕ → ℕ → Bool
duration_in_effect duration none now = false
duration_in_effect duration (some decided) now = still_runs duration decided now

abbrev pub same_decision : Decision → Decision → Bool
same_decision pending pending = true
same_decision allowed allowed = true
same_decision denied denied = true
same_decision expired expired = true
same_decision revoked revoked = true
same_decision (invalid s) (invalid t) = text_eq s t
same_decision _ _ = false

unfoldable pub has_id : Text → EgressConsent → Bool
has_id id row = text_eq row.id id

unfoldable pub in_workspace : Text → EgressConsent → Bool
in_workspace workspace_id row = text_eq row.workspace_id workspace_id

-- the three columns of the dedup indexes
unfoldable pub same_dest : Text → Text → ℕ → EgressConsent → Bool
same_dest workspace_id host port row =
    text_eq row.workspace_id workspace_id && text_eq row.dest_host host && row.dest_port == port

-- the rows of the index `uq_egress_consent_pending` for one destination
unfoldable pub pending_at : Text → Text → ℕ → EgressConsent → Bool
unfolding same_dest
pending_at workspace_id host port row =
    is_pending row.decision && same_dest workspace_id host port row

-- the rows of the index for the policy records of one destination and decision
unfoldable pub policy_at : Decision → Text → Text → ℕ → EgressConsent → Bool
unfolding same_dest
policy_at decision workspace_id host port row =
    same_decision row.decision decision
    && is_none row.decided_by
    && same_dest workspace_id host port row

-- `decision.in_([allowed, denied])` and `decided_by.is_not(None)`
abbrev pub is_human_verdict : EgressConsent → Bool
is_human_verdict row = is_verdict row.decision && not (is_none row.decided_by)

abbrev pub or_else : Option ℕ → ℕ → ℕ
or_else none d = d
or_else (some a) d = a

-- `coalesce(revoked_at, decided_at, requested_at)`
unfoldable pub terminal_at : EgressConsent → ℕ
terminal_at row = or_else row.revoked_at (or_else row.decided_at row.requested_at)

unfoldable pub prune_eligible : EgressConsent → ℕ → Bool
unfolding duration_in_effect
prune_eligible row now =
    if not (is_verdict row.decision)
    then true
    else if is_none row.decided_by
    then true
    else not (duration_in_effect row.duration row.decided_at now)
