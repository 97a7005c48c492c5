-- ===== src/Consent/Moves/Lifecycle.antt =====
-- The lifecycle of a consent row (src/msks/msks/model/egress_consent.py).
use msks.Prelude.{
  ℕ, Bool, true, false, ◌&&◌, if◌then◌else◌, text_eq, Option, some, [], ◌∷◌, Text, any, ◌≡◌, refl,
  ◌∙◌, arith, Bool-cases, Option-cases, inl, inr,
}
use msks.Egress.Lifecycle.{
  Decision, expired, revoked, is_pending, is_verdict, Duration, is_duration,
}
use msks.Consent.Row.{EgressConsent, has_id}
use msks.Consent.Rows.{Table, update_where}
use msks.Consent.Moves.{
  decided_row, revoked_row, expired_row, stamp, stamp_id, stamp_moved, move, decide, revoke,
  expire_pending, expire_all_pending,
}

-- What identifies a row and its question.
abbrev pub asked : EgressConsent → Text × Text × Text × ℕ × ℕ
asked r = (r.id, r.workspace_id, r.dest_host, r.dest_port, r.requested_at)

abbrev pub SameQuestion : EgressConsent → EgressConsent → Type 0
SameQuestion r s = asked s ≡ asked r

-- A row and its successor in an update: the question is the same, and the decision is `new` where the row
-- passes the test and unchanged where it does not.
abbrev pub Becomes : (EgressConsent → Bool) → Decision → EgressConsent → EgressConsent → Type 0
Becomes test new r s = SameQuestion r s × (s.decision ≡ (if test r then new else r.decision))

-- The rows of two tables, in order, with a relation of each to its successor.
abbrev pub Rowwise : (EgressConsent → EgressConsent → Type 0) → Table → Table → Type 0
Rowwise R [] [] = Unit
Rowwise R [] (s ∷ ss) = ⊥
Rowwise R (r ∷ rs) [] = ⊥
Rowwise R (r ∷ rs) (s ∷ ss) = R r s × Rowwise R rs ss

-- The rows keep everything but the tag.
abbrev Stamped : EgressConsent → EgressConsent → Type 0
Stamped r s = SameQuestion r s × (s.decision ≡ r.decision)

update-Rowwise :
    (R : EgressConsent → EgressConsent → Type 0) (p : EgressConsent → Bool)
    (f : EgressConsent → EgressConsent) (table : Table)
    → ((r : EgressConsent) → p r ≡ true → R r (f r))
    → ((r : EgressConsent) → p r ≡ false → R r r)
    → Rowwise R table (update_where p f table)
unfolding update_where
update-Rowwise R p f [] changed same = tt
update-Rowwise R p f (r ∷ table) changed same = elim (Bool-cases (p r)) [
  | inl e ↦ rw e (changed r e, update-Rowwise R p f table changed same)
  | inr e ↦ rw e (same r e, update-Rowwise R p f table changed same)
]

-- Nothing changes where no row passes the test.
unchanged :
    (test : EgressConsent → Bool) (new : Decision) (table : Table)
    → any test table ≡ false
    → Rowwise (Becomes test new) table table
unfolding any
unchanged test new [] h = tt
unchanged test new (r ∷ table) h =
    ((refl, ground (arith, h)), unchanged test new table (ground (arith, h)))

Becomes-Stamped :
    (test : EgressConsent → Bool) (new : Decision) (r s t : EgressConsent)
    → Becomes test new r s
    → Stamped s t
    → Becomes test new r t
Becomes-Stamped test new r s t (q, d) (k, e) = (k ∙ q, e ∙ d)

Rowwise-Stamped :
    (test : EgressConsent → Bool) (new : Decision) (rs ss ts : Table)
    → Rowwise (Becomes test new) rs ss
    → Rowwise Stamped ss ts
    → Rowwise (Becomes test new) rs ts
Rowwise-Stamped test new [] [] [] m k = tt
Rowwise-Stamped test new [] [] (t ∷ ts) m k = elim k [ ]
Rowwise-Stamped test new [] (s ∷ ss) ts m k = elim m [ ]
Rowwise-Stamped test new (r ∷ rs) [] ts m k = elim m [ ]
Rowwise-Stamped test new (r ∷ rs) (s ∷ ss) [] m k = elim k [ ]
Rowwise-Stamped test new (r ∷ rs) (s ∷ ss) (t ∷ ts) m k =
    (Becomes-Stamped test new r s t m.0 k.0, Rowwise-Stamped test new rs ss ts m.1 k.1)

Rowwise-map :
    {R S : EgressConsent → EgressConsent → Type 0} (rs ss : Table)
    → ((r s : EgressConsent) → R r s → S r s)
    → Rowwise R rs ss
    → Rowwise S rs ss
Rowwise-map [] [] f m = tt
Rowwise-map [] (s ∷ ss) f m = elim m [ ]
Rowwise-map (r ∷ rs) [] f m = elim m [ ]
Rowwise-map (r ∷ rs) (s ∷ ss) f m = (f r s m.0, Rowwise-map rs ss f m.1)

-- Nothing changes under a test that no row can pass.
never :
    (test : EgressConsent → Bool) (new : Decision) (table : Table)
    → ((r : EgressConsent) → test r ≡ false)
    → Rowwise (Becomes test new) table table
never test new [] h = tt
never test new (r ∷ table) h = ((refl, rw (h r) refl), never test new table h)

-- The tests of the four updates.
abbrev pub is_named : Text → EgressConsent → Bool
is_named id r = text_eq r.id id && is_pending r.decision

abbrev pub is_settled : Text → EgressConsent → Bool
is_settled id r = text_eq r.id id && is_verdict r.decision

abbrev pub is_accepted : Text → Decision → Duration → EgressConsent → Bool
is_accepted id d duration r = is_named id r && (is_verdict d && is_duration duration)

abbrev reaped : ℕ → EgressConsent → EgressConsent
reaped now r = record r { decision = expired; decided_at = some now }

module _ (audit : EgressConsent → Option Text) where
  stamp-Stamped : (r : EgressConsent) → Stamped r (stamp audit r)
  unfolding stamp
  stamp-Stamped r = elim (Option-cases (audit r)) [
    | inl e ↦ rw (e, stamp) (refl, refl)
    | inr (tag, e) ↦ rw (e, stamp) (refl, refl)
  ]

  move-Becomes :
      (id : Text) (p : EgressConsent → Bool) (f : EgressConsent → EgressConsent) (new : Decision)
      (table : Table)
      → ((r : EgressConsent) → Becomes (λ _. true) new r (f r))
      → Rowwise (Becomes p new) table (move audit id p f table).1
  unfolding move stamp_moved stamp_id
  move-Becomes id p f new table changed = elim (Bool-cases (any p table)) [
    | inl e ↦
        rw (e, move)
          (Rowwise-Stamped p new table _ _
            (update-Rowwise (Becomes p new) p f table (λ r h. ((changed r).0, rw h (changed r).1))
              (λ r h. (refl, rw h refl)))
            (update-Rowwise Stamped (has_id id) (stamp audit) _ (λ r h. stamp-Stamped r)
              (λ r h. (refl, refl))))
    | inr e ↦ rw (e, move) (unchanged p new table e)
  ]

  decide-Becomes :
      (id by : Text) (d : Decision) (duration : Duration) (now : ℕ) (table : Table)
      → Rowwise
          (Becomes (is_accepted id d duration) d)
          table
          (decide audit id d by duration now table).1
  unfolding decide has_id
  decide-Becomes id by d duration now table = elim (Bool-cases (is_verdict d)) [
    | inr e ↦ rw (e, decide) (never (is_accepted id d duration) d table (λ r. ground (arith, e)))
    | inl e ↦ elim (Bool-cases (is_duration duration)) [
      | inr e' ↦
          rw (e, e', decide) (never (is_accepted id d duration) d table (λ r. ground (arith, e')))
      | inl e' ↦
          rw (e, e', decide)
            (Rowwise-map table _ (λ r s m. (m.0, m.1 ∙ ground (arith, e, e')))
              (move-Becomes id (is_named id) (decided_row d duration now by) d table
                (λ r. (refl, refl))))
    ]
  ]

  -- What the four updates do to every row. They keep the rows and their order and never change what a row
  -- asks. `decide` with a verdict and a known duration gives the verdict to the pending row of its
  -- id, and with any other decision or duration it changes no decision; `revoke` takes the row of
  -- its id to `revoked` where that has a verdict; the timeout takes the pending row of its id to
  -- `expired`, and the reaping at start takes every pending row there. Every other decision stays.
  pub updates-Moved :
      (id by : Text) (d : Decision) (duration : Duration) (now : ℕ) (table : Table)
      → Rowwise
          (Becomes (is_accepted id d duration) d)
          table
          (decide audit id d by duration now table).1
        × Rowwise (Becomes (is_settled id) revoked) table (revoke audit id by now table).1
        × Rowwise (Becomes (is_named id) expired) table (expire_pending audit id now table).1
        × Rowwise
            (Becomes (λ r. is_pending r.decision) expired)
            table
            (expire_all_pending audit now table).1
  unfolding revoke expire_pending expire_all_pending has_id
  updates-Moved id by d duration now table = (
    decide-Becomes id by d duration now table,
    move-Becomes id (is_settled id) (revoked_row now by) revoked table (λ r. (refl, refl)),
    move-Becomes id (is_named id) (expired_row now) expired table (λ r. (refl, refl)),
    update-Rowwise (Becomes (λ r. is_pending r.decision) expired) (λ r. is_pending r.decision)
        (λ r. stamp audit (record r { decision = expired; decided_at = some now })) table
        (λ r h.
          Becomes-Stamped (λ s. is_pending s.decision) expired r (reaped now r)
            (stamp audit (reaped now r)) (refl, rw h refl) (stamp-Stamped (reaped now r)))
        (λ r h. (refl, rw h refl)),
  )
