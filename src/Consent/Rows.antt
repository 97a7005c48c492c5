-- ===== src/Consent/Rows.antt =====
-- `EgressConsentModel` of src/msks/msks/model/egress_consent.py. The table is the list of its rows
-- in the order of insertion. This file holds the statements and the reads.
use msks.Prelude.{
  ℕ, suc, Bool, true, not, ◌&&◌, Option, none, some, List, [], ◌∷◌, ◌++◌, Text, text_eq, leb,
  is_none, if◌then◌else◌, find, filter, any, count, take,
}
use msks.Egress.Lifecycle.{Decision, is_pending, is_forever}
use msks.Consent.Row.{
  EgressConsent, duration_in_effect, same_decision, has_id, in_workspace, same_dest, pending_at,
  is_human_verdict,
}

abbrev pub Table : Type 0
Table = List EgressConsent

-- `UPDATE … WHERE p SET f`
unfoldable pub update_where :
    (EgressConsent → Bool) → (EgressConsent → EgressConsent) → Table → Table
update_where p f [] = []
update_where p f (row ∷ table) = (if p row then f row else row) ∷ update_where p f table

-- `INSERT … ON CONFLICT DO NOTHING`, with the rows of the index that would conflict
abbrev pub insert_unless : (EgressConsent → Bool) → EgressConsent → Table → Table
insert_unless conflict row table = if any conflict table then table else table ++ row ∷ []

-- Rows by a key that falls along the list; rows of one key keep their order.
insert_desc : (EgressConsent → ℕ) → EgressConsent → Table → Table
insert_desc key row [] = row ∷ []
insert_desc key row (r ∷ rows) =
    let later = insert_desc key row rows in
    if leb (key r) (key row) then row ∷ r ∷ rows else r ∷ later

-- `ORDER BY key DESC`
unfoldable pub sort_desc : (EgressConsent → ℕ) → Table → Table
unfolding insert_desc
sort_desc key [] = []
sort_desc key (row ∷ rows) = insert_desc key row (sort_desc key rows)

insert_asc : (EgressConsent → ℕ) → EgressConsent → Table → Table
insert_asc key row [] = row ∷ []
insert_asc key row (r ∷ rows) =
    let later = insert_asc key row rows in
    if leb (key row) (key r) then row ∷ r ∷ rows else r ∷ later

-- `ORDER BY key`
unfoldable pub sort_asc : (EgressConsent → ℕ) → Table → Table
unfolding insert_asc
sort_asc key [] = []
sort_asc key (row ∷ rows) = insert_asc key row (sort_asc key rows)

-- SQLite orders a `NULL` before every number.
abbrev pub decided_key : EgressConsent → ℕ
decided_key row = elim row.decided_at [ none ↦ 0 | some t ↦ suc t ]

unfoldable pub pending_row : Text → Text → ℕ → Table → Option EgressConsent
pending_row workspace_id host port = find (pending_at workspace_id host port)

unfoldable pub get_request : Text → Table → Option EgressConsent
get_request id = find (has_id id)

unfoldable pub list_requests : Text → Option Decision → ℕ → Table → List EgressConsent
list_requests workspace_id none limit table =
    take limit (sort_desc (λ r. r.requested_at) (filter (in_workspace workspace_id) table))
list_requests workspace_id (some d) limit table = take limit (
    sort_desc (λ r. r.requested_at)
      (filter (λ r. in_workspace workspace_id r && same_decision r.decision d) table))

-- a pending row of the workspace
unfoldable pub pending_in : Text → EgressConsent → Bool
unfolding in_workspace
pending_in workspace_id row = in_workspace workspace_id row && is_pending row.decision

unfoldable pub count_pending : Text → Table → ℕ
count_pending workspace_id = count (pending_in workspace_id)

unfoldable pub has_pending : Text → Text → ℕ → Table → Bool
unfolding pending_row
has_pending workspace_id host port table = not (is_none (pending_row workspace_id host port table))

-- the loop of `active_verdict_for`: the first row in effect
first_in_effect : ℕ → List EgressConsent → Option EgressConsent
first_in_effect now = find (λ r. duration_in_effect r.duration r.decided_at now)

unfoldable pub active_verdict_for : Text → Text → ℕ → ℕ → Table → Option EgressConsent
unfolding first_in_effect
active_verdict_for workspace_id host port now table = first_in_effect now (
    sort_desc decided_key
      (filter (λ r. same_dest workspace_id host port r && is_human_verdict r) table))

abbrev same_host : Text → Text → EgressConsent → Bool
same_host workspace_id host r = text_eq r.workspace_id workspace_id && text_eq r.dest_host host

-- `forever_verdict_for`: `LIMIT 1` of the newest first
unfoldable pub forever_verdict_for : Text → Text → Table → Option EgressConsent
forever_verdict_for workspace_id host table =
    find (λ r. true)
      (sort_desc decided_key (
        filter (λ r. same_host workspace_id host r && is_human_verdict r && is_forever r.duration)
          table))

unfoldable pub list_active : Text → ℕ → Table → List EgressConsent
list_active workspace_id now table =
    filter (λ r. duration_in_effect r.duration r.decided_at now)
      (sort_desc decided_key
        (filter (λ r. in_workspace workspace_id r && is_human_verdict r) table))

unfoldable pub forever_rows : Text → ℕ → Table → List EgressConsent
unfolding list_active
forever_rows workspace_id now table =
    filter (λ r. is_forever r.duration) (list_active workspace_id now table)
