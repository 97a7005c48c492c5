-- ===== src/Consent/Engine/Closed.antt =====
-- Which packets `hold` of `ConsentEngine` (src/msks/msks/consent/coordinator.py) lets pass at once.
use msks.Prelude.{
  ℕ, Bool, true, false, not, ◌&&◌, ◌||◌, any, Bool-cases, inl, inr, Option, none, some, Text, ◌≡◌,
  refl, arith, is_none,
}
use msks.Prelude.Dict.{get, text_key}
use msks.Egress.Policy.{Mode, static, interactive, allow, other, WorkspaceRow, mode_or_allow}
use msks.Consent.Row.{EgressConsent}
use msks.Consent.Moves.{create_request}
use msks.Consent.Moves.Recorded.{is_policy, any-record_policy}
use msks.Consent.Verdict.{Verdict, denial, error}
use msks.Consent.Engine.State.{
  Engine, Call, get_workspace, policy_record, row_insert, M, continue, on_rows, or_value, Outcome,
  answered, held, call,
}
use msks.Consent.Engine.Gate.{
  fast_refusal, refused_or_held, held_or_duplicate, interactive_hold, mode_verdict, row_verdict,
  hold,
}

-- The outcome lets the packet pass at once.
abbrev pub passes : Option Outcome → Bool
passes none = false
passes (some (held id)) = false
passes (some (answered v)) = v.allows

abbrev is_allow : Mode → Bool
is_allow allow = true
is_allow _ = false

-- The workspace is there, in the mode that permits everything.
abbrev pub is_permitted : Option WorkspaceRow → Bool
is_permitted none = false
is_permitted (some row) = is_allow (mode_or_allow row.egress_mode)

-- A block does not pass if its last part does not.
continue-passes :
    {A : Type 0} (r : Option A × Engine) (f : A → M Outcome)
    → ((a : A) (e : Engine) → r.0 ≡ some a → passes (f a e).0 ≡ false)
    → passes (continue r f).0 ≡ false
continue-passes (none, e) f k = refl
continue-passes (some a, e) f k = k a e refl

held_or_duplicate-passes :
    (o : Option EgressConsent) (e : Engine) → passes (held_or_duplicate o e).0 ≡ false
held_or_duplicate-passes none e = refl
held_or_duplicate-passes (some row) e = refl

module _ (audit : EgressConsent → Option Text) (raises : Call → Bool) (id w host : Text)
    (port now : ℕ) where
  fast_refusal-denies :
      (e : Engine) (v : Verdict)
      → (fast_refusal audit raises id w host port now e).0 ≡ some (some v)
      → v.allows ≡ false
  unfolding fast_refusal
  fast_refusal-denies e v h = ground arith

  refused_or_held-passes :
      (o : Option Verdict) (e : Engine)
      → ((v : Verdict) → o ≡ some v → v.allows ≡ false)
      → passes (refused_or_held audit raises id w host port now o e).0 ≡ false
  refused_or_held-passes (some v) e k = k v refl
  refused_or_held-passes none e k = continue-passes (call raises row_insert e) _ λ _ e' _.
      continue-passes (on_rows (create_request audit id w host port now) e') held_or_duplicate
        λ o e'' _. held_or_duplicate-passes o e''

  interactive_hold-passes :
      (e : Engine) → passes (interactive_hold audit raises id w host port now e).0 ≡ false
  unfolding interactive_hold
  interactive_hold-passes e =
      continue-passes (fast_refusal audit raises id w host port now e) _
        λ o e' h. refused_or_held-passes o e' (λ v k. fast_refusal-denies e v (ground arith))

  mode_verdict-passes :
      (mode : Mode) (e : Engine)
      → passes (mode_verdict audit raises mode id w host port now e).0
        ≡ (is_allow mode && not (raises policy_record))
  unfolding mode_verdict call
  mode_verdict-passes allow e = ground arith
  mode_verdict-passes static e = ground arith
  mode_verdict-passes interactive e = interactive_hold-passes e
  mode_verdict-passes (other s) e = interactive_hold-passes e

  row_verdict-passes :
      (o : Option WorkspaceRow) (e : Engine)
      → passes (row_verdict audit raises o id w host port now e).0
        ≡ (is_permitted o && not (raises policy_record))
  row_verdict-passes none e = refl
  row_verdict-passes (some row) e = mode_verdict-passes (mode_or_allow row.egress_mode) e

  -- the packet does not pass, or the table has the record of the policy that let it pass
  abbrev is_recorded : Option Outcome × Engine → Bool
  is_recorded (o, e) = not (passes o) || any (is_policy w host port) e.rows

  recorded_by-passes : (r : Option Outcome × Engine) → passes r.0 ≡ false → is_recorded r ≡ true
  recorded_by-passes r h = rw h refl

  mode_verdict-recorded :
      (mode : Mode) (e : Engine)
      → is_recorded (mode_verdict audit raises mode id w host port now e) ≡ true
  unfolding mode_verdict call
  mode_verdict-recorded allow e = ground (arith, any-record_policy audit id w host port now e.rows)
  mode_verdict-recorded static e = ground arith
  mode_verdict-recorded interactive e =
      recorded_by-passes (interactive_hold audit raises id w host port now e)
        (interactive_hold-passes e)
  mode_verdict-recorded (other s) e =
      recorded_by-passes (interactive_hold audit raises id w host port now e)
        (interactive_hold-passes e)

  row_verdict-recorded :
      (o : Option WorkspaceRow) (e : Engine)
      → is_recorded (row_verdict audit raises o id w host port now e) ≡ true
  row_verdict-recorded none e = refl
  row_verdict-recorded (some row) e = mode_verdict-recorded (mode_or_allow row.egress_mode) e

  recorded-catching :
      (r : Option Outcome × Engine)
      → is_recorded r ≡ true
      → is_recorded (or_value r (answered (denial error))) ≡ true
  recorded-catching (none, e) h = refl
  recorded-catching (some o, e) h = h

  -- The gate lets a packet pass at once exactly when the workspace's row is read and there, in allow mode,
  -- and the write of the policy record raises no exception; every exception is a denial. Where
  -- a packet passes, the table has the policy record of its workspace, host and port, which
  -- this call or an earlier one inserted.
  pub hold-passes :
      (e : Engine)
      → let r = hold audit raises id w host port now e in
        (passes r.0 ≡ (
          not (raises get_workspace)
          && is_permitted (get w e.workspaces)
          && not (raises policy_record)))
        × ((not (passes r.0) || any (is_policy w host port) r.1.rows) ≡ true)
  unfolding hold call
  hold-passes e = (
    ground (arith, row_verdict-passes (get w e.workspaces) e),
    elim (Bool-cases (raises get_workspace)) [
      | inl failed ↦ rw failed refl
      | inr read ↦ rw read (
          recorded-catching (row_verdict audit raises (get w e.workspaces) id w host port now e)
            (row_verdict-recorded (get w e.workspaces) e))
    ],
  )

  -- Whatever the model's calls do, the gate answers.
  pub hold_total : (e : Engine) → is_none (hold audit raises id w host port now e).0 ≡ false
  unfolding hold call
  hold_total e = ground arith
