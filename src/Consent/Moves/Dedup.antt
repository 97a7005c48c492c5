-- ===== src/Consent/Moves/Dedup.antt =====
-- The table's unique indexes: one pending row and one policy record of a decision for a
-- destination, one row for an id.
use msks.Prelude.{
  ℕ, ◌≤◌, Bool, true, false, Option, none, some, [], ◌∷◌, Text, text_eq_iff, any, count,
  count-append, ◌≡◌, refl, inl, inr, arith, Bool-cases,
}
use msks.Egress.Lifecycle.{Decision, pending, allowed, denied, expired, once, Duration, is_pending}
use msks.Consent.Row.{EgressConsent, has_id, pending_at, policy_at}
use msks.Consent.Rows.{Table, update_where, insert_unless}
use msks.Consent.Moves.{
  stamp, stamp_id, stamp_own, stamp_moved, move, blank, is_open, decided_row, revoked_row,
  expired_row, decide, revoke, expire_pending, expire_all_pending,
}

pub data Index : Type 0 where
  by_id : Text → Index
  by_pending by_allowed by_denied : Text → Text → ℕ → Index

-- The rows that stand under one key of an index.
unfoldable pub holds : Index → EgressConsent → Bool
unfolding has_id pending_at policy_at
holds (by_id id) row = has_id id row
holds (by_pending w h p) row = pending_at w h p row
holds (by_allowed w h p) row = policy_at allowed w h p row
holds (by_denied w h p) row = policy_at denied w h p row

abbrev pub IsUnique : Table → Type 0
IsUnique table = (i : Index) → count (holds i) table ≤ 1

pub any-count : (p : EgressConsent → Bool) (table : Table) → any p table ≡ false → count p table ≡ 0
unfolding any count
any-count p [] h = refl
any-count p (row ∷ table) h = ground (arith, any-count p table)

-- An update that brings no row under a key does not raise the count.
count-update_where-le :
    (q p : EgressConsent → Bool) (f : EgressConsent → EgressConsent) (table : Table)
    → ((row : EgressConsent) → p row ≡ true → q (f row) ≡ true → q row ≡ true)
    → count q (update_where p f table) ≤ count q table
unfolding count update_where
count-update_where-le q p f [] h = omega arith
count-update_where-le q p f (row ∷ table) h =
    ground (arith, h row, count-update_where-le q p f table h)

module _ (audit : EgressConsent → Option Text) where
  holds-stamp : (i : Index) (row : EgressConsent) → holds i (stamp audit row) ≡ holds i row
  unfolding holds stamp
  holds-stamp (by_id id) row = ground arith
  holds-stamp (by_pending w h p) row = ground arith
  holds-stamp (by_allowed w h p) row = ground arith
  holds-stamp (by_denied w h p) row = ground arith

  count-stamp_id-le :
      (i : Index) (id : Text) (table : Table)
      → count (holds i) (stamp_id audit id table) ≤ count (holds i) table
  unfolding stamp_id
  count-stamp_id-le i id table =
      count-update_where-le (holds i) (has_id id) (stamp audit) table
        (λ row _ h. ground (arith, holds-stamp i row))

  pub stamp_own-IsUnique :
      (id : Text) (o : Option EgressConsent) (before table : Table)
      → IsUnique before
      → IsUnique table
      → IsUnique (stamp_own audit id o before table).1
  unfolding stamp_own
  stamp_own-IsUnique id none before table ub ut i = ub i
  stamp_own-IsUnique id (some row) before table ub ut i =
      ground (arith, ub i, ut i, count-stamp_id-le i id table)

  move-IsUnique :
      (id : Text) (p : EgressConsent → Bool) (f : EgressConsent → EgressConsent) (table : Table)
      → ((i : Index) (row : EgressConsent)
          → p row ≡ true
          → holds i (f row) ≡ true
          → holds i row ≡ true)
      → IsUnique table
      → IsUnique (move audit id p f table).1
  unfolding move
  move-IsUnique id p f table h u i = elim (Bool-cases (any p table)) [
    | inl e ↦
        rw (e, stamp_moved)
          (omega (
            arith,
            u i,
            count-stamp_id-le i id (update_where p f table),
            count-update_where-le (holds i) p f table (h i),
          ))
    | inr e ↦ rw (e, stamp_moved) (u i)
  ]

  decided-holds :
      (id by : Text) (d : Decision) (duration : Duration) (now : ℕ) (i : Index)
      (row : EgressConsent)
      → is_open id row ≡ true
      → holds i (decided_row d duration now by row) ≡ true
      → holds i row ≡ true
  unfolding holds
  decided-holds id by d duration now (by_id id') row o h = ground arith
  decided-holds id by d duration now (by_pending w q p) row o h = ground arith
  decided-holds id by d duration now (by_allowed w q p) row o h = ground arith
  decided-holds id by d duration now (by_denied w q p) row o h = ground arith

  revoked-holds :
      (id by : Text) (now : ℕ) (i : Index) (row : EgressConsent)
      → holds i (revoked_row now by row) ≡ true
      → holds i row ≡ true
  unfolding holds
  revoked-holds id by now (by_id id') row h = h
  revoked-holds id by now (by_pending w q p) row h = ground arith
  revoked-holds id by now (by_allowed w q p) row h = ground arith
  revoked-holds id by now (by_denied w q p) row h = ground arith

  expired-holds :
      (now : ℕ) (i : Index) (row : EgressConsent) (duration : Option Duration)
      → holds i (record row { decision = expired; duration = duration; decided_at = some now })
        ≡ true
      → holds i row ≡ true
  unfolding holds
  expired-holds now (by_id id') row duration h = h
  expired-holds now (by_pending w q p) row duration h = ground arith
  expired-holds now (by_allowed w q p) row duration h = ground arith
  expired-holds now (by_denied w q p) row duration h = ground arith

  pub decide-IsUnique :
      (id by : Text) (d : Decision) (duration : Duration) (now : ℕ) (table : Table)
      → IsUnique table
      → IsUnique (decide audit id d by duration now table).1
  unfolding decide
  decide-IsUnique id by d duration now table u i = ground (
    arith,
    u i,
    move-IsUnique id (is_open id) (decided_row d duration now by) table
        (decided-holds id by d duration now) u i,
  )

  pub revoke-IsUnique :
      (id by : Text) (now : ℕ) (table : Table)
      → IsUnique table
      → IsUnique (revoke audit id by now table).1
  unfolding revoke
  revoke-IsUnique id by now table u =
      move-IsUnique id _ (revoked_row now by) table (λ i row _ h. revoked-holds id by now i row h) u

  pub expire_pending-IsUnique :
      (id : Text) (now : ℕ) (table : Table)
      → IsUnique table
      → IsUnique (expire_pending audit id now table).1
  unfolding expire_pending
  expire_pending-IsUnique id now table u =
      move-IsUnique id _ (expired_row now) table
        (λ i row _ h. expired-holds now i row (some once) h) u

  pub expire_all_pending-IsUnique :
      (now : ℕ) (table : Table) → IsUnique table → IsUnique (expire_all_pending audit now table).1
  unfolding expire_all_pending
  expire_all_pending-IsUnique now table u i = omega (
    arith,
    u i,
    count-update_where-le (holds i) (λ row. is_pending row.decision)
        (λ row. stamp audit (record row { decision = expired; decided_at = some now })) table
        (λ row _ h. expired-holds now i row row.duration (
          ground
            (arith, holds-stamp i (record row { decision = expired; decided_at = some now })))),
  )

pub insert-IsUnique :
    (conflict : EgressConsent → Bool) (row : EgressConsent) (table : Table)
    → ((i : Index) → holds i row ≡ true → any conflict table ≡ false → count (holds i) table ≡ 0)
    → IsUnique table
    → IsUnique (insert_unless conflict row table)
unfolding count
insert-IsUnique conflict row table h u i =
    ground (arith, u i, h i, count-append (holds i) table (row ∷ []))

-- A new pending row stands under no key that has a row.
pub pending-new :
    (id w h : Text) (p now : ℕ) (table : Table)
    → any (has_id id) table ≡ false
    → (i : Index) → holds i (blank id w h p now pending) ≡ true
    → any (pending_at w h p) table ≡ false
    → count (holds i) table ≡ 0
unfolding holds
pending-new id w h p now table fresh (by_id id') e c =
    ground (arith, text_eq_iff id id', any-count (has_id id) table fresh)
pending-new id w h p now table fresh (by_pending w' h' p') e c =
    ground (arith, text_eq_iff w w', text_eq_iff h h', any-count (pending_at w h p) table c)
pending-new id w h p now table fresh (by_allowed w' h' p') e c = ground arith
pending-new id w h p now table fresh (by_denied w' h' p') e c = ground arith
