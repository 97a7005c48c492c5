-- ===== src/Consent/Moves/Recorded.antt =====
-- What the writes of src/msks/msks/model/egress_consent.py that the engine calls leave in the table: the
-- record of a policy, and the row of a decision.
use msks.Prelude.{
  ℕ, Bool, true, false, not, ◌&&◌, Option, none, some, [], ◌∷◌, ◌++◌, Text, text_eq, text_eq_iff,
  ◌==◌, any, find, is_none, ◌≡◌, refl, sym, ap, ◌∙◌, inl, inr, arith, Bool-cases, Result, ok, err,
}
use msks.Egress.Lifecycle.{
  Decision, pending, allowed, denied, expired, revoked, invalid, is_allowed, is_pending, is_verdict,
  Duration, is_duration,
}
use msks.Consent.Row.{EgressConsent, has_id, policy_at, same_decision, same_dest}
use msks.Consent.Rows.{Table, update_where, get_request}
use msks.Consent.Moves.{
  stamp, stamp_id, stamp_own, stamp_moved, move, blank, decided_row, record_policy, decide,
}
use mathlib.Core.Option
use msks.Prelude.Dict.{text_key}

-- The record that the policy let a destination pass: a row with no decider.
abbrev pub is_policy : Text → Text → ℕ → EgressConsent → Bool
is_policy w host port row =
    is_allowed row.decision
    && is_none row.decided_by
    && (text_eq row.workspace_id w && text_eq row.dest_host host && row.dest_port == port)

any-update_where :
    (q p : EgressConsent → Bool) (f : EgressConsent → EgressConsent) (table : Table)
    → ((row : EgressConsent) → q (f row) ≡ q row)
    → any q (update_where p f table) ≡ any q table
unfolding any update_where
any-update_where q p f [] same = refl
any-update_where q p f (row ∷ table) same =
    ground (arith, same row, any-update_where q p f table same)

any-last :
    (q : EgressConsent → Bool) (row : EgressConsent) (table : Table)
    → q row ≡ true
    → any q (table ++ row ∷ []) ≡ true
unfolding any
any-last q row [] h = ground (arith, h)
any-last q row (r ∷ table) h = ground (arith, any-last q row table h)

find-last :
    (q : EgressConsent → Bool) (row : EgressConsent) (table : Table)
    → any q table ≡ false
    → q row ≡ true
    → find q (table ++ row ∷ []) ≡ some row
unfolding any find
find-last q row [] n h = ground (arith, h)
find-last q row (r ∷ table) n h = ground (arith, n, h, find-last q row table)

find-any : (q : EgressConsent → Bool) (table : Table) → is_none (find q table) ≡ not (any q table)
unfolding any find
find-any q [] = refl
find-any q (row ∷ table) = ground (arith, find-any q table)

same_decision-allowed : (d : Decision) → same_decision d allowed ≡ is_allowed d
same_decision-allowed pending = refl
same_decision-allowed allowed = refl
same_decision-allowed denied = refl
same_decision-allowed expired = refl
same_decision-allowed revoked = refl
same_decision-allowed (invalid s) = refl

policy_at-is_policy :
    (w host : Text) (port : ℕ) (row : EgressConsent)
    → policy_at allowed w host port row ≡ is_policy w host port row
unfolding policy_at same_dest
policy_at-is_policy w host port row = rw (same_decision-allowed row.decision) refl

any-policy :
    (w host : Text) (port : ℕ) (table : Table)
    → any (policy_at allowed w host port) table ≡ any (is_policy w host port) table
unfolding any
any-policy w host port [] = refl
any-policy w host port (row ∷ table) =
    ground (arith, policy_at-is_policy w host port row, any-policy w host port table)

policy_at-blank :
    (id w host : Text) (port now : ℕ)
    → policy_at allowed w host port
        (record (blank id w host port now allowed) { decided_at = some now })
      ≡ true
unfolding policy_at same_dest
policy_at-blank id w host port now = ground (arith, text_eq_iff w w, text_eq_iff host host)

-- The row of the id is pending.
abbrev pub is_waiting : Text → EgressConsent → Bool
is_waiting id row = text_eq row.id id && is_pending row.decision

abbrev pub row_of : {E : Type 0} → Result E (Option EgressConsent) → Option EgressConsent
row_of (ok row) = row
row_of (err e) = none

any-has_id :
    (id : Text) (table : Table) → any (is_waiting id) table ≡ true → any (has_id id) table ≡ true
unfolding any has_id
any-has_id id [] h = h
any-has_id id (row ∷ table) h = ground (arith, h, any-has_id id table)

is_none-map :
    (f : EgressConsent → EgressConsent) (o : Option EgressConsent)
    → is_none (Option.map f o) ≡ is_none o
is_none-map f none = refl
is_none-map f (some row) = refl

module _ (audit : EgressConsent → Option Text) where
  is_policy-stamp :
      (w host : Text) (port : ℕ) (row : EgressConsent)
      → is_policy w host port (stamp audit row) ≡ is_policy w host port row
  unfolding stamp
  is_policy-stamp w host port row = ground arith

  any-stamp_own :
      (w host id : Text) (port : ℕ) (o : Option EgressConsent) (before table : Table)
      → any (is_policy w host port) before ≡ true
      → any (is_policy w host port) table ≡ true
      → any (is_policy w host port) (stamp_own audit id o before table).1 ≡ true
  unfolding stamp_own stamp_id
  any-stamp_own w host id port none before table b t = b
  any-stamp_own w host id port (some row) before table b t = ground (
    arith,
    b,
    t,
    any-update_where (is_policy w host port) (has_id id) (stamp audit) table
        (is_policy-stamp w host port),
  )

  stamp_own-new :
      (id : Text) (row : EgressConsent) (before table : Table)
      → row.id ≡ id
      → stamp_own audit id (some row) before table
        ≡ (some (stamp audit row), stamp_id audit id table)
  unfolding stamp_own
  stamp_own-new id row before table e = ground (arith, (text_eq_iff row.id id).1 e)

  -- After `record_policy` the table has the record.
  pub any-record_policy :
      (id w host : Text) (port now : ℕ) (table : Table)
      → any (is_policy w host port) (record_policy audit id allowed w host port now table).1 ≡ true
  unfolding record_policy stamp_id
  any-record_policy id w host port now table =
      let row = record (blank id w host port now allowed) { decided_at = some now } in
      elim (Bool-cases (any (policy_at allowed w host port) table)) [
        | inl e ↦
            let there = sym (any-policy w host port table) ∙ e in
            rw e (any-stamp_own w host id port _ table table there there)
        | inr e ↦
            let mine : policy_at allowed w host port row ≡ true =
              policy_at-blank id w host port now in
            let there =
              any-last (is_policy w host port) row table
                (sym (policy_at-is_policy w host port row) ∙ mine) in
            rw
              (
                e,
                find-last (policy_at allowed w host port) row table e mine,
                stamp_own-new id row table (table ++ row ∷ []) refl,
              )
              (any-update_where (is_policy w host port) (has_id id) (stamp audit)
                  (table ++ row ∷ []) (is_policy-stamp w host port)
                ∙ there)
      ]

  move-waiting :
      (id : Text) (f : EgressConsent → EgressConsent) (table : Table)
      → ((row : EgressConsent) → (f row).id ≡ row.id)
      → is_none (move audit id (is_waiting id) f table).0 ≡ not (any (is_waiting id) table)
  unfolding move stamp_moved get_request has_id
  move-waiting id f table keeps = elim (Bool-cases (any (is_waiting id) table)) [
    | inr e ↦ rw e refl
    | inl e ↦
        let changed = update_where (is_waiting id) f table in
        rw e (
          is_none-map (stamp audit) (find (has_id id) changed)
          ∙ find-any (has_id id) changed
          ∙ ap not (
              any-update_where (has_id id) (is_waiting id) f table
                (λ row. ap (λ k. text_eq k id) (keeps row))
              ∙ any-has_id id table e))
  ]

  -- The row that `decide` gives back is there exactly when the decision and the duration are known
  -- and the row of the id is pending.
  pub decide-committed :
      (id by : Text) (d : Decision) (duration : Duration) (now : ℕ) (table : Table)
      → is_none (row_of (decide audit id d by duration now table).0)
        ≡ not (is_verdict d && is_duration duration && any (is_waiting id) table)
  unfolding decide has_id
  decide-committed id by d duration now table =
      ground (arith, move-waiting id (decided_row d duration now by) table (λ r. refl))
