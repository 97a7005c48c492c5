-- ===== src/Consent/Verdict.antt =====
-- The verdicts of src/msks/msks/consent/coordinator.py, before the class: what a decision answers to
-- a held packet, and what a lasting row pins.
use msks.Prelude.{
  ℕ, Bool, true, false, not, ◌&&◌, Option, none, some, List, Text, ◌==◌, is_none, if◌then◌else◌,
  filter, map,
}
use msks.Egress.Grammar.{is_ipv4}
use msks.Egress.Lifecycle.{
  Decision, allowed, denied, expired, is_allowed, Duration, once, duration_ttl, once_reject,
  long_ttl, VerdictPin,
}
use msks.Consent.Row.{EgressConsent, same_decision}

-- The `reason` of a verdict; `because` is the reason that a caller of `fail_close` passes.
pub data Reason : Type 0 where
  gone allow_mode static_mode error no_decider duplicate rate_limited decided : Reason
  because : Text → Reason

-- `allows` is `decision == VERDICT_ALLOW`; `duration` is `none` where the dict has no such key.
pub record Verdict : Type 0 where
  pub allows : Bool
  pub reason : Reason
  pub duration : Option Duration
  pub pin_ttl : Option ℕ

abbrev pub or_once_reject : Option ℕ → ℕ
or_once_reject none = once_reject
or_once_reject (some ttl) = ttl

unfoldable pub decided_ttl : Decision → Duration → Option ℕ
decided_ttl decision duration =
    if is_allowed decision
    then duration_ttl duration
    else some (or_once_reject (duration_ttl duration))

-- `public_row`
abbrev pub public_row : EgressConsent → EgressConsent
public_row row = record row { hmac = none }

unfoldable pub grouped : List EgressConsent → Decision → List EgressConsent
grouped rows decision = map public_row (filter (λ r. same_decision r.decision decision) rows)

-- The verdict of `denial`.
abbrev pub denial : Reason → Verdict
denial reason = record {
  allows = false;
  reason = reason;
  duration = none;
  pin_ttl = some once_reject;
}

-- The verdict of a hold that closed with no decision.
abbrev pub closed : Reason → Verdict
closed reason = record {
  allows = false;
  reason = reason;
  duration = some once;
  pin_ttl = some once_reject;
}

unfoldable pub built_verdict : Option EgressConsent → Decision → Duration → Verdict × Decision
unfolding decided_ttl
built_verdict none decision duration = (closed gone, expired)
built_verdict (some row) decision duration =
    if is_allowed decision
    then (
      record {
        allows = true;
        reason = decided;
        duration = some duration;
        pin_ttl = decided_ttl decision duration;
      },
      allowed,
    )
    else (
      record {
        allows = false;
        reason = decided;
        duration = some duration;
        pin_ttl = decided_ttl decision duration;
      },
      denied,
    )

abbrev pub port_or_none : ℕ → Option ℕ
port_or_none port = if port == 0 then none else some port

unfoldable pub pin_for_row : EgressConsent → Option VerdictPin
pin_for_row row =
    let port = port_or_none row.dest_port in
    let allows = is_allowed row.decision in
    if not (is_ipv4 row.dest_host)
    then none
    else if not allows && is_none port
    then none
    else some (record { is_allow = allows; ip = row.dest_host; port = port; ttl = long_ttl })
