-- ===== src/Consent/Engine/Held.antt =====
-- What a hold of `ConsentEngine` (src/msks/msks/consent/coordinator.py) leaves when it asks a person.
use msks.Prelude.{
  ℕ, ◌<◌, ◌≡◌, Bool, true, false, ◌⊎◌, Option, none, some, [], ◌∷◌, Text, text_eq, text_eq_iff,
  refl, arith, find, Bool-cases, Option-cases, inl, inr, sym, ap, ◌∙◌,
}
use mathlib.Core.Path.{subst}
use msks.Prelude.Dict.{get, put, text_key}
use msks.Egress.Policy.{Mode, static, interactive, allow, other, WorkspaceRow, mode_or_allow}
use msks.Consent.Row.{EgressConsent, pending_at}
use msks.Consent.Rows.{Table, pending_row, has_pending, count_pending}
use msks.Consent.Moves.{stamp, stamp_own, create_request}
use msks.Consent.Deciders.{has_decider}
use msks.Consent.Verdict.{Verdict}
use msks.Consent.Engine.State.{
  Engine, Call, get_workspace, row_insert, M, continue, Outcome, answered, held, or_value, call,
}
use msks.Consent.Engine.Gate.{
  register_hold, fast_refusal, refused_or_held, held_or_duplicate, interactive_hold, mode_verdict,
  row_verdict, hold,
}

find-true :
    (p : EgressConsent → Bool) (table : Table) (row : EgressConsent)
    → find p table ≡ some row
    → p row ≡ true
unfolding find
find-true p [] row h = ground arith
find-true p (r ∷ table) row h = elim (Bool-cases (p r)) [
  | inl e ↦ ground (arith, ap p {x = r} {y = row})
  | inr e ↦ find-true p table row (ground arith)
]

-- The guards of the gate on the state before, and what it registered in the state after.
pub record IsHeld (id w host : Text) (port : ℕ) (e d : Engine) (i : Text) : Type 0 where
  pub own : i ≡ id
  pub watched : has_decider w e.deciders ≡ true
  pub single : has_pending w host port e.rows ≡ false
  pub within : (e.rate_limit ≡ 0) ⊎ (count_pending w e.rows < e.rate_limit)
  pub registered : d.holds ≡ put id w e.holds
  pub timer : d.timers ≡ id ∷ e.timers
  pub unanswered : d.answers ≡ e.answers

module _ (audit : EgressConsent → Option Text) (raises : Call → Bool) (id w host : Text)
    (port now : ℕ) where
  stamp-key :
      (r : EgressConsent)
      → ((stamp audit r).id ≡ r.id) × ((stamp audit r).workspace_id ≡ r.workspace_id)
  unfolding stamp
  stamp-key r = elim (Option-cases (audit r)) [
    | inl e ↦ rw (e, stamp) (refl, refl)
    | inr (tag, e) ↦ rw (e, stamp) (refl, refl)
  ]

  stamp_own-row :
      (o : Option EgressConsent) (before table : Table) (row : EgressConsent)
      → (stamp_own audit id o before table).0 ≡ some row
      → (r : EgressConsent) × (o ≡ some r) × (text_eq r.id id ≡ true) × (stamp audit r ≡ row)
  unfolding stamp_own
  stamp_own-row none before table row h = ground arith
  stamp_own-row (some r) before table row h = (r, refl, ground arith, ground arith)

  pending_row-workspace :
      (table : Table) (r : EgressConsent)
      → pending_row w host port table ≡ some r
      → r.workspace_id ≡ w
  unfolding pending_row pending_at
  pending_row-workspace table r h =
      ground (arith, find-true (pending_at w host port) table r h, text_eq_iff r.workspace_id w)

  -- The row that an insert gives back is the one it wrote.
  pub create_request-own :
      (table : Table) (row : EgressConsent)
      → (create_request audit id w host port now table).0 ≡ some row
      → (row.id ≡ id) × (row.workspace_id ≡ w)
  unfolding create_request
  create_request-own table row h =
      let (r, found, own, e) = stamp_own-row _ _ _ row h in
      (
        ap (λ k. k.id) (sym e) ∙ (stamp-key r).0 ∙ (text_eq_iff r.id id).0 own,
        ap (λ k. k.workspace_id) (sym e) ∙ (stamp-key r).1 ∙ pending_row-workspace _ r found,
      )

  fast_refusal-none :
      (e : Engine)
      → (fast_refusal audit raises id w host port now e).0 ≡ some none
      → (has_decider w e.deciders ≡ true)
        × (has_pending w host port e.rows ≡ false)
        × ((e.rate_limit ≡ 0) ⊎ (count_pending w e.rows < e.rate_limit))
        × ((fast_refusal audit raises id w host port now e).1 ≡ e)
  unfolding fast_refusal
  fast_refusal-none e h = ground arith

  -- What a held outcome says of the state that it leaves.
  abbrev HeldFrom : Engine → Option Outcome × Engine → Type 0
  HeldFrom e r = (i : Text) → r.0 ≡ some (held i) → IsHeld id w host port e r.1 i

  Clear : Engine → Type 0
  Clear e =
      (has_decider w e.deciders ≡ true)
      × (has_pending w host port e.rows ≡ false)
      × ((e.rate_limit ≡ 0) ⊎ (count_pending w e.rows < e.rate_limit))

  held_or_duplicate-Held :
      (o : Option EgressConsent) (e : Engine) (rows : Table)
      → ((row : EgressConsent) → o ≡ some row → (row.id ≡ id) × (row.workspace_id ≡ w))
      → Clear e
      → HeldFrom e (held_or_duplicate o (record e { rows = rows }))
  unfolding Clear register_hold
  held_or_duplicate-Held none e rows own clear i h = ground arith
  held_or_duplicate-Held (some row) e rows own clear i h = record {
    own = ground (arith, (own row refl).0);
    watched = clear.0;
    single = clear.1;
    within = clear.2;
    registered = rw ((own row refl).0, (own row refl).1) refl;
    timer = rw (own row refl).0 refl;
    unanswered = refl;
  }

  refused_or_held-Held :
      (o : Option Verdict) (e : Engine)
      → (o ≡ none → Clear e)
      → HeldFrom e (refused_or_held audit raises id w host port now o e)
  unfolding call
  refused_or_held-Held (some v) e clear = λ i h. ground arith
  refused_or_held-Held none e clear = elim (Bool-cases (raises row_insert)) [
    | inl bad ↦ rw (bad, call) (λ i h. ground arith)
    | inr good ↦
        rw (good, call)
          (held_or_duplicate-Held _ e _ (λ row f. create_request-own e.rows row f) (clear refl))
  ]

  continue-Held :
      {A : Type 0} (e : Engine) (r : Option A × Engine) (f : A → M Outcome)
      → ((a : A) → r.0 ≡ some a → HeldFrom e (f a r.1))
      → HeldFrom e (continue r f)
  continue-Held e (none, d) f k = λ i h. ground arith
  continue-Held e (some a, d) f k = k a refl

  fast-Held :
      (e : Engine) (o : Option Verdict)
      → (fast_refusal audit raises id w host port now e).0 ≡ some o
      → HeldFrom e (
          refused_or_held audit raises id w host port now o
            (fast_refusal audit raises id w host port now e).1)
  unfolding Clear
  fast-Held e (some v) h = λ i h. ground arith
  fast-Held e none h =
      let (watched, single, within, same) = fast_refusal-none e h in
      subst (λ d. HeldFrom e (refused_or_held audit raises id w host port now none d)) (sym same)
        (refused_or_held-Held none e (λ _. (watched, single, within)))

  interactive_hold-Held :
      (e : Engine) → HeldFrom e (interactive_hold audit raises id w host port now e)
  unfolding interactive_hold Clear
  interactive_hold-Held e =
      continue-Held e (fast_refusal audit raises id w host port now e) _ (fast-Held e)

  mode_verdict-Held :
      (mode : Mode) (e : Engine) → HeldFrom e (mode_verdict audit raises mode id w host port now e)
  unfolding mode_verdict call
  mode_verdict-Held allow e = λ i h. ground arith
  mode_verdict-Held static e = λ i h. ground arith
  mode_verdict-Held interactive e = interactive_hold-Held e
  mode_verdict-Held (other s) e = interactive_hold-Held e

  row_verdict-Held :
      (o : Option WorkspaceRow) (e : Engine)
      → HeldFrom e (row_verdict audit raises o id w host port now e)
  row_verdict-Held none e = λ i h. ground arith
  row_verdict-Held (some row) e = mode_verdict-Held (mode_or_allow row.egress_mode) e

  or_value-Held :
      (e : Engine) (r : Option Outcome × Engine) (v : Verdict)
      → HeldFrom e r
      → HeldFrom e (or_value r (answered v))
  or_value-Held e (none, d) v k = λ i h. ground arith
  or_value-Held e (some o, d) v k = k

  started :
      (e : Engine)
      → HeldFrom e (
          continue
            (call raises get_workspace e)
            (λ _ d. row_verdict audit raises (get w d.workspaces) id w host port now d))
  unfolding call
  started e = elim (Bool-cases (raises get_workspace)) [
    | inl bad ↦ rw (bad, call) (λ i h. ground arith)
    | inr good ↦ rw (good, call) (row_verdict-Held (get w e.workspaces) e)
  ]

  -- Where the gate answers with the future of a held request, the request is the one with the fresh
  -- id, somebody watches the workspace, no other request for the destination was pending, and the
  -- rate limit, where there is one, was not reached; the request is registered for its workspace with
  -- a live timeout task, every other hold and task stays, and no future is answered.
  pub hold-IsHeld :
      (e : Engine) (i : Text)
      → (hold audit raises id w host port now e).0 ≡ some (held i)
      → IsHeld id w host port e (hold audit raises id w host port now e).1 i
  unfolding hold
  hold-IsHeld e i h = or_value-Held e _ _ (started e) i h
