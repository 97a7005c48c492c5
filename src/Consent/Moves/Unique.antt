-- ===== src/Consent/Moves/Unique.antt =====
-- The unique indexes under every method that writes (src/msks/msks/model/egress_consent.py).
use msks.Prelude.{
  ℕ, ◌-◌, ◌*◌, Bool, true, false, not, Option, some, List, [], ◌∷◌, Text, text_eq_iff, ltb,
  if◌then◌else◌, any, count, count-filter-le, ◌≡◌, arith, Bool-cases, inl, inr,
}
use msks.Egress.Lifecycle.{Decision, pending, allowed, denied, is_verdict}
use msks.Consent.Row.{EgressConsent, has_id, in_workspace, pending_at, policy_at}
use msks.Consent.Rows.{Table}
use msks.Consent.Moves.{
  blank, create_request, record_policy, delete_where, clear_tilrestart, delete_for_workspace,
  prune_retention, trim_workspace, trim_all, workspaces_of, prune_row_cap, prune, day,
}
use msks.Consent.Moves.Steps.{
  Write, creates, records, decides, revokes, expires, reaps, clears, deletes, prunes, IsAllowed,
  write, Reaches, start, next,
}
use msks.Consent.Moves.Dedup.{
  Index, by_id, by_allowed, by_denied, holds, IsUnique, any-count, stamp_own-IsUnique,
  insert-IsUnique, pending-new, decide-IsUnique, revoke-IsUnique, expire_pending-IsUnique,
  expire_all_pending-IsUnique,
}

-- A new policy record stands under no key that has a row.
policy-new :
    (id w h : Text) (d : Decision) (p now : ℕ) (table : Table)
    → any (has_id id) table ≡ false
    → is_verdict d ≡ true
    → (i : Index) → holds i (record (blank id w h p now d) { decided_at = some now }) ≡ true
    → any (policy_at d w h p) table ≡ false
    → count (holds i) table ≡ 0
unfolding holds
policy-new id w h allowed p now table fresh v (by_id id') e c =
    ground (arith, text_eq_iff id id', any-count (has_id id) table fresh)
policy-new id w h denied p now table fresh v (by_id id') e c =
    ground (arith, text_eq_iff id id', any-count (has_id id) table fresh)
policy-new id w h allowed p now table fresh v (by_allowed w' h' p') e c =
    ground (arith, text_eq_iff w w', text_eq_iff h h', any-count (policy_at allowed w h p) table c)
policy-new id w h denied p now table fresh v (by_denied w' h' p') e c =
    ground (arith, text_eq_iff w w', text_eq_iff h h', any-count (policy_at denied w h p) table c)
policy-new id w h d p now table fresh v i e c = ground arith

module _ (audit : EgressConsent → Option Text) where
  create_request-IsUnique :
      (id w h : Text) (p now : ℕ) (table : Table)
      → any (has_id id) table ≡ false
      → IsUnique table
      → IsUnique (create_request audit id w h p now table).1
  unfolding create_request
  create_request-IsUnique id w h p now table fresh u = stamp_own-IsUnique audit id _ table _ u (
      insert-IsUnique (pending_at w h p) (blank id w h p now pending) table
        (pending-new id w h p now table fresh) u)

  record_policy-IsUnique :
      (id w h : Text) (d : Decision) (p now : ℕ) (table : Table)
      → any (has_id id) table ≡ false
      → is_verdict d ≡ true
      → IsUnique table
      → IsUnique (record_policy audit id d w h p now table).1
  unfolding record_policy
  record_policy-IsUnique id w h d p now table fresh v u = stamp_own-IsUnique audit id _ table _ u (
      insert-IsUnique (policy_at d w h p) (record (blank id w h p now d) { decided_at = some now })
        table (policy-new id w h d p now table fresh v) u)

delete_where-IsUnique :
    (p : EgressConsent → Bool) (table : Table) → IsUnique table → IsUnique (delete_where p table).1
delete_where-IsUnique p table u i =
    omega (arith, u i, count-filter-le (holds i) (λ row. not (p row)) table)

trim_workspace-IsUnique :
    (w : Text) (excess now : ℕ) (table : Table)
    → IsUnique table
    → IsUnique (trim_workspace w excess now table).1
unfolding trim_workspace
trim_workspace-IsUnique w excess now table u i =
    omega (arith, u i, count-filter-le (holds i) _ table)

trim_all-IsUnique :
    (row_cap now : ℕ) (ws : List Text) (table : Table)
    → IsUnique table
    → IsUnique (trim_all row_cap now ws table).1
unfolding trim_all
trim_all-IsUnique row_cap now [] table u = u
trim_all-IsUnique row_cap now (w ∷ ws) table u =
    elim (Bool-cases (ltb row_cap (count (in_workspace w) table))) [
      | inl over ↦
          rw over (trim_all-IsUnique row_cap now ws _ (trim_workspace-IsUnique w _ now table u))
      | inr under ↦ rw under (trim_all-IsUnique row_cap now ws table u)
    ]

prune_row_cap-IsUnique :
    (row_cap now : ℕ) (table : Table)
    → IsUnique table
    → IsUnique (prune_row_cap row_cap now table).1
unfolding prune_row_cap
prune_row_cap-IsUnique row_cap now table u =
    trim_all-IsUnique row_cap now (workspaces_of table) table u

IsUnique-if :
    (b : Bool) (x y : ℕ × Table) → IsUnique x.1 → IsUnique y.1 → IsUnique (if b then x else y).1
IsUnique-if true x y ux uy = ux
IsUnique-if false x y ux uy = uy

prune-IsUnique :
    (days row_cap now : ℕ) (table : Table)
    → IsUnique table
    → IsUnique (prune days row_cap now table).1
unfolding prune prune_retention
prune-IsUnique days row_cap now table u =
    let kept =
      IsUnique-if (ltb 0 days) (prune_retention (now - days * day) now table) (0, table)
        (delete_where-IsUnique _ table u) u in
    IsUnique-if (ltb 0 row_cap) (prune_row_cap row_cap now _) (0, _)
      (prune_row_cap-IsUnique row_cap now _ kept) kept

-- Every write keeps the table's unique indexes.
pub write-IsUnique :
    (audit : EgressConsent → Option Text) (w : Write) (table : Table)
    → IsAllowed w table
    → IsUnique table
    → IsUnique (write audit w table)
unfolding write
write-IsUnique audit (creates id w h p now) table a u =
    create_request-IsUnique audit id w h p now table a u
write-IsUnique audit (records id d w h p now) table a u =
    record_policy-IsUnique audit id w h d p now table a.0 a.1 u
write-IsUnique audit (decides id d by duration now) table a u =
    decide-IsUnique audit id by d duration now table u
write-IsUnique audit (revokes id by now) table a u = revoke-IsUnique audit id by now table u
write-IsUnique audit (expires id now) table a u = expire_pending-IsUnique audit id now table u
write-IsUnique audit (reaps now) table a u = expire_all_pending-IsUnique audit now table u
write-IsUnique audit (clears w) table a u =
    unfold clear_tilrestart in delete_where-IsUnique _ table u
write-IsUnique audit (deletes w) table a u =
    unfold delete_for_workspace in delete_where-IsUnique _ table u
write-IsUnique audit (prunes days row_cap now) table a u = prune-IsUnique days row_cap now table u

-- In every table that the program reaches, a destination has at most one pending row and at most one
-- policy record of each verdict, and an id has at most one row.
pub Reaches-IsUnique :
    (audit : EgressConsent → Option Text) {table : Table} → Reaches audit table → IsUnique table
unfolding count
Reaches-IsUnique audit start i = omega arith
Reaches-IsUnique audit (next {table} r w a) i =
    write-IsUnique audit w table a (Reaches-IsUnique audit r) i
