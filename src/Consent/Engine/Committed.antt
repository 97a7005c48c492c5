-- ===== src/Consent/Engine/Committed.antt =====
-- What `resolve` of src/msks/msks/consent/coordinator.py answers to a decision, by whether the row of the
-- request is committed.
use msks.Prelude.{
  ℕ, Bool, not, ◌&&◌, Option, none, some, Text, ◌≡◌, refl, arith, if◌then◌else◌, is_none, any,
  false, Result, ok, err,
}
use msks.Prelude.Dict.{text_key}
use msks.Egress.Lifecycle.{
  Decision, Duration, once, is_allowed, is_verdict, is_duration, duration_ttl,
}
use msks.Consent.Moves.{decide}
use msks.Consent.Moves.Recorded.{is_waiting, row_of, decide-committed}
use msks.Consent.Row.{EgressConsent}
use msks.Consent.Verdict.{Verdict, built_verdict, decided_ttl, or_once_reject, decided, gone}
use msks.Consent.Engine.State.{Engine, Call, row_decide}
use msks.Consent.Engine.Settle.{row_or_none, decide_or_none}

abbrev pub or_ten_seconds : Option ℕ → ℕ
or_ten_seconds none = 10000
or_ten_seconds (some ttl) = ttl

or_once_reject_lem : (o : Option ℕ) → or_once_reject o ≡ or_ten_seconds o
or_once_reject_lem none = refl
or_once_reject_lem (some ttl) = refl

-- The answer to a decision, by whether its row is committed.
abbrev pub verdict_of : Bool → Decision → Duration → Verdict
verdict_of committed d duration =
    if committed
    then (record {
      allows = is_allowed d;
      reason = decided;
      duration = some duration;
      pin_ttl =
          if is_allowed d
          then duration_ttl duration
          else some (or_ten_seconds (duration_ttl duration));
    })
    else (record { allows = false; reason = gone; duration = some once; pin_ttl = some 10000 })

pub built_verdict_lem :
    (o : Option EgressConsent) (committed : Bool) (d : Decision) (duration : Duration)
    → is_none o ≡ not committed
    → (built_verdict o d duration).0 ≡ verdict_of committed d duration
unfolding built_verdict decided_ttl
built_verdict_lem none committed d duration h = ground (arith, h)
built_verdict_lem (some row) committed d duration h =
    ground (arith, h, or_once_reject_lem (duration_ttl duration))

row_or_none-row_of : {E : Type 0} (r : Result E (Option EgressConsent)) → row_or_none r ≡ row_of r
row_or_none-row_of (ok row) = refl
row_or_none-row_of (err e) = refl

module _ (audit : EgressConsent → Option Text) (raises : Call → Bool) where
  -- The row of a held request is committed.
  abbrev pub is_committed : Text → Decision → Duration → Engine → Bool
  is_committed id d duration e =
      not (raises row_decide)
      && (is_verdict d && is_duration duration && any (is_waiting id) e.rows)

  pub decide_or_none-committed :
      (id by : Text) (d : Decision) (duration : Duration) (now : ℕ) (e : Engine)
      → is_none (decide_or_none audit raises id d by duration now e).0
        ≡ not (is_committed id d duration e)
  unfolding decide_or_none
  decide_or_none-committed id by d duration now e =
      let row = (decide audit id d by duration now e.rows).0 in
      ground (arith, decide-committed audit id by d duration now e.rows, row_or_none-row_of row)
