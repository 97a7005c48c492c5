-- ===== src/Consent/Engine/Revoke.antt =====
-- Revocation, the replay of lasting verdicts and the start of `ConsentEngine`
-- (src/msks/msks/consent/coordinator.py).
use msks.Prelude.{ℕ, Bool, Option, none, some, List, [], ◌∷◌, Text, if◌then◌else◌}
use msks.Egress.Lifecycle.{is_verdict, is_revoked, VerdictPin}
use msks.Consent.Row.{EgressConsent}
use msks.Consent.Rows.{get_request, forever_rows}
use msks.Consent.Moves.{revoke, expire_all_pending}
use msks.Consent.Session
use msks.Consent.Verdict.{pin_for_row}
use msks.Consent.Engine.Frames.{broadcast_rules}
use msks.Consent.Engine.State.{
  ◌>>=◌, ◌>>◌, Engine, Call, row_read, row_revoke, active_list, row_expire, M, pure, gets, modify,
  on_rows, catching, call,
}

unfoldable pub revocable : Option EgressConsent → Option EgressConsent
revocable none = none
revocable (some row) =
    if is_revoked row.decision then some row else if is_verdict row.decision then some row else none

-- `clear_enforcement`: the destination whose rules and connections the data plane drops
abbrev pub clear_enforcement : EgressConsent → Engine → Engine
clear_enforcement row e = record e {
  cleared = (row.workspace_id, row.dest_host, row.dest_port) ∷ e.cleared;
}

abbrev consider : Option VerdictPin → List VerdictPin → List VerdictPin
consider none pins = pins
consider (some pin) pins = pin ∷ pins

pub pins_for : List EgressConsent → List VerdictPin
pins_for [] = []
pins_for (row ∷ rows) = consider (pin_for_row row) (pins_for rows)

module _ (audit : EgressConsent → Option Text) (raises : Call → Bool) where
  -- the end of `revoke`, on what the model's `revoke` returned
  abbrev pub revoked_or_row : EgressConsent → ℕ → Option EgressConsent → M (Option EgressConsent)
  revoked_or_row row now none = pure (some row)
  revoked_or_row row now (some updated) = do
    modify (λ e. record e { session = Session.forget e.session row.workspace_id row.dest_host })
    modify (clear_enforcement row)
    modify (broadcast_rules raises row.workspace_id now)
    pure (some updated)

  abbrev pub revoke_row : Text → Text → ℕ → Option EgressConsent → M (Option EgressConsent)
  revoke_row id by now none = pure none
  revoke_row id by now (some row) = do
    call raises row_revoke
    updated ← on_rows (revoke audit id by now)
    revoked_or_row row now updated

  -- `ConsentEngine.revoke`
  unfoldable pub revoke_verdict : Text → Text → ℕ → M (Option EgressConsent)
  unfolding call revocable
  revoke_verdict id by now = do
    call raises row_read
    row ← gets (λ e. revocable (get_request id e.rows))
    revoke_row id by now row

  -- `start`
  unfoldable pub start : ℕ → M ℕ
  unfolding call
  start now = do call raises row_expire; on_rows (expire_all_pending audit now)

  unfoldable pub forever_pins : Text → ℕ → M (List VerdictPin)
  unfolding call pins_for
  forever_pins w now =
      catching (do call raises active_list; gets (λ e. pins_for (forever_rows w now e.rows))) []
