-- ===== src/Consent/Engine/Adds.antt =====
-- What a call of `hold` of `ConsentEngine` (src/msks/msks/consent/coordinator.py) may change in the
-- holds, the timers and the answers, whatever it returns.
use msks.Prelude.{
  ℕ, Bool, ◌≡◌, ◌⊎◌, Option, none, some, ◌∷◌, Text, refl, ap, ◌∙◌, arith, Bool-cases, inl, inr,
}
use msks.Prelude.Dict.{get, put, text_key}
use msks.Egress.Policy.{Mode, static, interactive, allow, other, WorkspaceRow, mode_or_allow}
use msks.Consent.Row.{EgressConsent}
use msks.Consent.Rows.{Table}
use msks.Consent.Verdict.{Verdict}
use msks.Consent.Engine.State.{
  Engine, Call, get_workspace, row_insert, M, continue, or_value, Outcome, call,
}
use msks.Consent.Engine.Gate.{
  register_hold, fast_refusal, refused_or_held, held_or_duplicate, interactive_hold, mode_verdict,
  row_verdict, hold,
}
use msks.Consent.Engine.Held.{create_request-own}

abbrev pub Same3 : Engine → Engine → Type 0
Same3 e d = (d.holds ≡ e.holds) × (d.timers ≡ e.timers) × (d.answers ≡ e.answers)

-- Nothing changes, or the fresh request is added to the holds and the timers.
abbrev pub Adds : Text → Text → Engine → Engine → Type 0
Adds id w e d =
    Same3 e d
    ⊎ ((d.holds ≡ put id w e.holds) × (d.timers ≡ id ∷ e.timers) × (d.answers ≡ e.answers))

Same3-Adds : (id w : Text) (e d c : Engine) → Same3 e d → Adds id w d c → Adds id w e c
Same3-Adds id w e d c s (inl t) = inl (t.0 ∙ s.0, t.1 ∙ s.1, t.2 ∙ s.2)
Same3-Adds id w e d c s (inr t) =
    inr (t.0 ∙ ap (put id w) s.0, t.1 ∙ ap (λ ts. id ∷ ts) s.1, t.2 ∙ s.2)

module _ (audit : EgressConsent → Option Text) (raises : Call → Bool) (id w host : Text)
    (port now : ℕ) where
  held_or_duplicate-Adds :
      (o : Option EgressConsent) (e : Engine) (rows : Table)
      → ((row : EgressConsent) → o ≡ some row → (row.id ≡ id) × (row.workspace_id ≡ w))
      → Adds id w e (held_or_duplicate o (record e { rows = rows })).1
  unfolding register_hold
  held_or_duplicate-Adds none e rows own = inl (refl, refl, refl)
  held_or_duplicate-Adds (some row) e rows own =
      inr (rw ((own row refl).0, (own row refl).1) refl, rw (own row refl).0 refl, refl)

  refused_or_held-Adds :
      (o : Option Verdict) (e : Engine)
      → Adds id w e (refused_or_held audit raises id w host port now o e).1
  unfolding call
  refused_or_held-Adds (some v) e = inl (refl, refl, refl)
  refused_or_held-Adds none e = elim (Bool-cases (raises row_insert)) [
    | inl bad ↦ rw (bad, call) (inl (refl, refl, refl))
    | inr good ↦
        rw (good, call)
          (held_or_duplicate-Adds _ e _
            (λ row f. create_request-own audit raises id w host port now e.rows row f))
  ]

  continue-Adds :
      {A : Type 0} (e : Engine) (r : Option A × Engine) (f : A → M Outcome)
      → Same3 e r.1
      → ((a : A) (d : Engine) → Adds id w d (f a d).1)
      → Adds id w e (continue r f).1
  continue-Adds e (none, d) f s k = inl s
  continue-Adds e (some a, d) f s k = Same3-Adds id w e d (f a d).1 s (k a d)

  fast_refusal-Same3 : (e : Engine) → Same3 e (fast_refusal audit raises id w host port now e).1
  unfolding fast_refusal
  fast_refusal-Same3 e = ground arith

  mode_verdict-Adds :
      (mode : Mode) (e : Engine)
      → Adds id w e (mode_verdict audit raises mode id w host port now e).1
  unfolding mode_verdict interactive_hold call
  mode_verdict-Adds allow e = inl (ground arith)
  mode_verdict-Adds static e = inl (ground arith)
  mode_verdict-Adds interactive e =
      continue-Adds e _ _ (fast_refusal-Same3 e) (λ o d. refused_or_held-Adds o d)
  mode_verdict-Adds (other s) e =
      continue-Adds e _ _ (fast_refusal-Same3 e) (λ o d. refused_or_held-Adds o d)

  row_verdict-Adds :
      (o : Option WorkspaceRow) (e : Engine)
      → Adds id w e (row_verdict audit raises o id w host port now e).1
  row_verdict-Adds none e = inl (refl, refl, refl)
  row_verdict-Adds (some row) e = mode_verdict-Adds (mode_or_allow row.egress_mode) e

  or_value-Adds :
      (e : Engine) (r : Option Outcome × Engine) (o : Outcome)
      → Adds id w e r.1
      → Adds id w e (or_value r o).1
  or_value-Adds e (none, d) o k = k
  or_value-Adds e (some p, d) o k = k

  started-Adds :
      (e : Engine)
      → Adds id w e
          (continue
            (call raises get_workspace e)
            (λ _ d. row_verdict audit raises (get w d.workspaces) id w host port now d)).1
  unfolding call
  started-Adds e = elim (Bool-cases (raises get_workspace)) [
    | inl bad ↦ rw (bad, call) (inl (refl, refl, refl))
    | inr good ↦ rw (good, call) (row_verdict-Adds (get w e.workspaces) e)
  ]

  pub hold-Adds : (e : Engine) → Adds id w e (hold audit raises id w host port now e).1
  unfolding hold
  hold-Adds e = or_value-Adds e _ _ (started-Adds e)
