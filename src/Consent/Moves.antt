-- ===== src/Consent/Moves.antt =====
-- The writes of `EgressConsentModel` (src/msks/msks/model/egress_consent.py). A method returns the
-- new table, and where the source returns without a commit, the old one. `audit` computes the tag
-- of a row; `id` is the fresh `uuid4` of an insert; `now` is the time that the method reads.
pub mod Steps
pub mod Dedup
pub mod Unique
pub mod Lifecycle
pub mod Recorded
use mathlib.Core.Option
use msks.Prelude.{
  ℕ, zero, suc, ◌+◌, ◌-◌, ◌*◌, Bool, true, false, not, ◌&&◌, Option, none, some, List, [], ◌∷◌, map,
  Text, text_eq, mem_text, ltb, if◌then◌else◌, find, filter, any, count, length, Result, ok, err,
}
use msks.Egress.Lifecycle.{
  Decision, pending, expired, revoked, is_pending, is_verdict, Duration, once, is_duration,
  is_tilrestart, second,
}
use msks.Consent.Row.{
  EgressConsent, has_id, in_workspace, pending_at, policy_at, terminal_at, prune_eligible,
}
use msks.Consent.Rows.{Table, update_where, insert_unless, sort_asc, pending_row, get_request}

-- The `ValueError`s of `decide`.
pub data ValueError : Type 0 where
  invalid_decision : Decision → ValueError
  invalid_duration : Duration → ValueError

abbrev pub blank : Text → Text → Text → ℕ → ℕ → Decision → EgressConsent
blank id workspace_id host port now decision = record {
  id = id;
  workspace_id = workspace_id;
  dest_host = host;
  dest_port = port;
  decision = decision;
  duration = none;
  requested_at = now;
  decided_at = none;
  decided_by = none;
  revoked_at = none;
  revoked_by = none;
  hmac = none;
}

abbrev pub is_open : Text → EgressConsent → Bool
is_open id row = has_id id row && is_pending row.decision

abbrev pub decided_row : Decision → Duration → ℕ → Text → EgressConsent → EgressConsent
decided_row decision duration now by row = record row {
  decision = decision;
  duration = some duration;
  decided_at = some now;
  decided_by = some by;
}

abbrev pub revoked_row : ℕ → Text → EgressConsent → EgressConsent
revoked_row now by row = record row {
  decision = revoked;
  revoked_at = some now;
  revoked_by = some by;
}

abbrev pub expired_row : ℕ → EgressConsent → EgressConsent
expired_row now row = record row { decision = expired; duration = some once; decided_at = some now }

module _ (audit : EgressConsent → Option Text) where
  -- `stamp_hmac`
  unfoldable pub stamp : EgressConsent → EgressConsent
  stamp row = elim (audit row) [ none ↦ row | some tag ↦ record row { hmac = some tag } ]

  pub stamp_id : Text → Table → Table
  unfolding stamp
  stamp_id id table = update_where (has_id id) stamp table

  -- The re-read after an insert: the new row stamped, or `None` and no commit.
  unfoldable pub stamp_own :
      Text → Option EgressConsent → Table → Table → Option EgressConsent × Table
  unfolding stamp_id
  stamp_own id none before table = (none, before)
  stamp_own id (some row) before table =
      if text_eq row.id id then (some (stamp row), stamp_id id table) else (none, before)

  -- The re-read after an update: the row stamped, or `None` where no row moved.
  pub stamp_moved : Text → Bool → Table → Table → Option EgressConsent × Table
  unfolding stamp_id
  stamp_moved id false before table = (none, before)
  stamp_moved id true before table = (Option.map stamp (get_request id table), stamp_id id table)

  unfoldable pub create_request : Text → Text → Text → ℕ → ℕ → Table → Option EgressConsent × Table
  unfolding stamp_own
  create_request id workspace_id host port now table =
      let row = blank id workspace_id host port now pending in
      let inserted = insert_unless (pending_at workspace_id host port) row table in
      stamp_own id (pending_row workspace_id host port inserted) table inserted

  unfoldable pub record_policy :
      Text → Decision → Text → Text → ℕ → ℕ → Table → Option EgressConsent × Table
  unfolding stamp_own
  record_policy id decision workspace_id host port now table =
      let row = record (blank id workspace_id host port now decision) { decided_at = some now } in
      let same = policy_at decision workspace_id host port in
      let inserted = insert_unless same row table in
      stamp_own id (find same inserted) table inserted

  -- `UPDATE` of the rows that pass `p`, then the re-read of the row `id`
  pub move :
      Text
      → (EgressConsent → Bool)
      → (EgressConsent → EgressConsent)
      → Table
      → Option EgressConsent × Table
  unfolding stamp_moved
  move id p f table = stamp_moved id (any p table) table (update_where p f table)

  unfoldable pub decide :
      Text
      → Decision
      → Text
      → Duration
      → ℕ
      → Table
      → Result ValueError (Option EgressConsent) × Table
  unfolding move
  decide id decision by duration now table =
      if not (is_verdict decision)
      then (err (invalid_decision decision), table)
      else if not (is_duration duration)
      then (err (invalid_duration duration), table)
      else (let (row, table') = move id (is_open id) (decided_row decision duration now by) table in
          (ok row, table'))

  unfoldable pub revoke : Text → Text → ℕ → Table → Option EgressConsent × Table
  unfolding move
  revoke id by now table =
      move id (λ row. has_id id row && is_verdict row.decision) (revoked_row now by) table

  unfoldable pub expire_pending : Text → ℕ → Table → Bool × Table
  unfolding move
  expire_pending id now table =
      let (row, table') = move id (is_open id) (expired_row now) table in
      (any (is_open id) table, table')

  unfoldable pub expire_all_pending : ℕ → Table → ℕ × Table
  unfolding stamp
  expire_all_pending now table = (
    count (λ row. is_pending row.decision) table,
    update_where (λ row. is_pending row.decision)
        (λ row. stamp (record row { decision = expired; decided_at = some now })) table,
  )

-- `DELETE` of the rows that pass, with their number
abbrev pub delete_where : (EgressConsent → Bool) → Table → ℕ × Table
delete_where p table = (count p table, filter (λ row. not (p row)) table)

abbrev pub is_cleared : Text → EgressConsent → Bool
is_cleared workspace_id row =
    in_workspace workspace_id row && is_tilrestart row.duration && is_verdict row.decision

unfoldable pub clear_tilrestart : Text → Table → ℕ × Table
clear_tilrestart workspace_id = delete_where (is_cleared workspace_id)

unfoldable pub delete_for_workspace : Text → Table → ℕ × Table
delete_for_workspace workspace_id = delete_where (in_workspace workspace_id)

-- The cutoff is `now - retention`; a time before the epoch is cut at 0, and nothing is older.
unfoldable pub prune_retention : ℕ → ℕ → Table → ℕ × Table
prune_retention cutoff now =
    delete_where (λ row. ltb (terminal_at row) cutoff && prune_eligible row now)

-- the loop of `trim_workspace`: the ids to delete, oldest row first
pub doomed : ℕ → ℕ → List EgressConsent → List Text
doomed zero now rows = []
doomed (suc excess) now [] = []
doomed (suc excess) now (row ∷ rows) =
    let kept = doomed (suc excess) now rows in
    let gone = row.id ∷ doomed excess now rows in
    if not (prune_eligible row now) then kept else gone

unfoldable pub trim_workspace : Text → ℕ → ℕ → Table → ℕ × Table
unfolding doomed
trim_workspace workspace_id excess now table =
    let gone = doomed excess now (
      sort_asc terminal_at
        (filter (λ row. in_workspace workspace_id row && not (is_pending row.decision)) table)) in
    (length gone, filter (λ row. not (mem_text row.id gone)) table)

-- the workspaces of the rows, each once
pub workspaces_of : Table → List Text
workspaces_of [] = []
workspaces_of (row ∷ table) =
    let rest = workspaces_of table in
    if mem_text row.workspace_id rest then rest else row.workspace_id ∷ rest

-- the loop over the workspaces that are over the cap
pub trim_all : ℕ → ℕ → List Text → Table → ℕ × Table
trim_all row_cap now [] table = (0, table)
trim_all row_cap now (w ∷ ws) table =
    let rows = count (in_workspace w) table in
    let (n, trimmed) =
      (if ltb row_cap rows then trim_workspace w (rows - row_cap) now table else (0, table)) in
    let (m, rest) = trim_all row_cap now ws trimmed in (n + m, rest)

unfoldable pub prune_row_cap : ℕ → ℕ → Table → ℕ × Table
unfolding workspaces_of trim_all
prune_row_cap row_cap now table = trim_all row_cap now (workspaces_of table) table

abbrev pub day : ℕ
day = 86400 * second

-- `prune`, with the two settings of `bounds`
unfoldable pub prune : ℕ → ℕ → ℕ → Table → ℕ × Table
prune retention_days row_cap now table =
    let (n, kept) =
      (if ltb 0 retention_days
        then prune_retention (now - retention_days * day) now table
        else (0, table)) in
    let (m, rest) = (if ltb 0 row_cap then prune_row_cap row_cap now kept else (0, kept)) in
    (n + m, rest)
