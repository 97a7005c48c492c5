-- ===== src/Consent/Moves/Steps.antt =====
-- The table's histories: one step for each method that writes.
use msks.Prelude.{ℕ, true, false, Option, [], Text, ◌≡◌, any}
use msks.Egress.Lifecycle.{Decision, Duration, is_verdict}
use msks.Consent.Row.{EgressConsent, has_id}
use msks.Consent.Rows.{Table}
use msks.Consent.Moves.{
  create_request, record_policy, decide, revoke, expire_pending, expire_all_pending,
  clear_tilrestart, delete_for_workspace, prune,
}

pub data Write : Type 0 where
  creates : Text → Text → Text → ℕ → ℕ → Write
  records : Text → Decision → Text → Text → ℕ → ℕ → Write
  decides : Text → Decision → Text → Duration → ℕ → Write
  revokes : Text → Text → ℕ → Write
  expires : Text → ℕ → Write
  reaps : ℕ → Write
  clears : Text → Write
  deletes : Text → Write
  prunes : ℕ → ℕ → ℕ → Write

-- What the callers see to: the id of an insert is fresh, and a policy record is a verdict.
abbrev pub IsAllowed : Write → Table → Type 0
IsAllowed (creates id w h p now) table = any (has_id id) table ≡ false
IsAllowed (records id d w h p now) table = (any (has_id id) table ≡ false) × (is_verdict d ≡ true)
IsAllowed _ table = Unit

module _ (audit : EgressConsent → Option Text) where
  unfoldable pub write : Write → Table → Table
  write (creates id w h p now) table = (create_request audit id w h p now table).1
  write (records id d w h p now) table = (record_policy audit id d w h p now table).1
  write (decides id d by duration now) table = (decide audit id d by duration now table).1
  write (revokes id by now) table = (revoke audit id by now table).1
  write (expires id now) table = (expire_pending audit id now table).1
  write (reaps now) table = (expire_all_pending audit now table).1
  write (clears w) table = (clear_tilrestart w table).1
  write (deletes w) table = (delete_for_workspace w table).1
  write (prunes days row_cap now) table = (prune days row_cap now table).1

  -- The tables that the program can reach from an empty one.
  pub data Reaches : Table → Type 0 where
    start : Reaches []
    next :
        {table : Table} → Reaches table → (w : Write) → IsAllowed w table → Reaches (write w table)
