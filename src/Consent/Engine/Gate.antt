-- ===== src/Consent/Engine/Gate.antt =====
-- The hold gate of `ConsentEngine` (src/msks/msks/consent/coordinator.py): from `hold` to
-- `register_hold`. `raises` says which calls of the model raise.
use msks.Prelude.{
  ℕ, ◌+◌, Bool, true, not, Option, none, some, [], ◌∷◌, ◌++◌, Text, ltb, leb, if◌then◌else◌,
}
use msks.Prelude.Dict.{get, put, text_key}
use msks.Egress.Policy.{Mode, static, allow, WorkspaceRow, mode_or_allow}
use msks.Egress.Lifecycle.{allowed, denied}
use msks.Consent.Row.{EgressConsent}
use msks.Consent.Rows.{has_pending, count_pending}
use msks.Consent.Moves.{create_request, record_policy}
use msks.Consent.Deciders.{has_decider}
use msks.Consent.Verdict.{
  gone, allow_mode, static_mode, error, no_decider, duplicate, rate_limited, Verdict, denial,
  public_row,
}
use msks.Consent.Engine.State.{
  ◌>>=◌, ◌>>◌, request, Engine, Call, get_workspace, policy_record, pending_test, pending_count,
  row_insert, M, pure, gets, modify, on_rows, catching, Outcome, answered, held, call,
}

unfoldable pub register_hold : EgressConsent → Engine → Engine
register_hold row e = record e {
  holds = put row.id row.workspace_id e.holds;
  timers = row.id ∷ e.timers;
  frames =
      e.frames ++ request row.workspace_id (public_row row) (row.requested_at + e.timeout) ∷ [];
}

-- the tail of `interactive_hold`, on what `create_request` returned
abbrev pub held_or_duplicate : Option EgressConsent → M Outcome
held_or_duplicate none = pure (answered (denial duplicate))
held_or_duplicate (some row) = do modify (register_hold row); pure (held row.id)

module _ (audit : EgressConsent → Option Text) (raises : Call → Bool) where
  unfoldable pub fast_refusal : Text → Text → Text → ℕ → ℕ → M (Option Verdict)
  unfolding call
  fast_refusal id w host port now e =
      if not (has_decider w e.deciders)
      then (do
        call raises policy_record
        on_rows (record_policy audit id denied w host port now)
        pure (some (denial no_decider)))
          e
      else (do
        call raises pending_test
        duplicated ← gets (λ s. has_pending w host port s.rows)
        if duplicated
            then pure (some (denial duplicate))
            else if not (ltb 0 e.rate_limit)
            then pure none
            else do
              call raises pending_count
              full ← gets (λ s. leb s.rate_limit (count_pending w s.rows))
              pure (if full then some (denial rate_limited) else none))
          e

  abbrev pub refused_or_held : Text → Text → Text → ℕ → ℕ → Option Verdict → M Outcome
  refused_or_held id w host port now (some verdict) = pure (answered verdict)
  refused_or_held id w host port now none = do
    call raises row_insert
    created ← on_rows (create_request audit id w host port now)
    held_or_duplicate created

  unfoldable pub interactive_hold : Text → Text → Text → ℕ → ℕ → M Outcome
  unfolding fast_refusal
  interactive_hold id w host port now = do
    fast ← fast_refusal id w host port now
    refused_or_held id w host port now fast

  unfoldable pub mode_verdict : Mode → Text → Text → Text → ℕ → ℕ → M Outcome
  unfolding interactive_hold
  mode_verdict allow id w host port now = do
    call raises policy_record
    on_rows (record_policy audit id allowed w host port now)
    pure (answered (record { allows = true; reason = allow_mode; duration = none; pin_ttl = none }))
  mode_verdict static id w host port now = do
    call raises policy_record
    on_rows (record_policy audit id denied w host port now)
    pure (answered (denial static_mode))
  mode_verdict mode id w host port now = interactive_hold id w host port now

  abbrev pub row_verdict : Option WorkspaceRow → Text → Text → Text → ℕ → ℕ → M Outcome
  row_verdict none id w host port now = pure (answered (denial gone))
  row_verdict (some row) id w host port now =
      mode_verdict (mode_or_allow row.egress_mode) id w host port now

  -- `hold`; `id` is the fresh id of the row that it may write
  unfoldable pub hold : Text → Text → Text → ℕ → ℕ → M Outcome
  unfolding mode_verdict
  hold id w host port now =
      catching
        (do
          call raises get_workspace
          row ← gets (λ s. get w s.workspaces)
          row_verdict row id w host port now)
        (answered (denial error))
