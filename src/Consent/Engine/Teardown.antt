-- ===== src/Consent/Engine/Teardown.antt =====
-- What `stop` and `fail_close_workspace` of `ConsentEngine` (src/msks/msks/consent/coordinator.py) do to
-- every request.
use msks.Prelude.{
  ℕ, Bool, true, false, not, ◌&&◌, Option, none, some, [], ◌∷◌, Text, codes, text_eq, text_eq_iff,
  ◌≡◌, refl, ◌∙◌, ap, arith, if◌then◌else◌, is_none, Bool-cases, Option-cases, inl, inr,
}
use msks.Prelude.Dict.{Dict, get, text_key}
use msks.Consent.Row.{EgressConsent}
use msks.Consent.Verdict.{Reason, because, closed}
use msks.Consent.Engine.State.{Engine, Call}
use msks.Consent.Engine.Settle.{
  owned_by, fail_close, cancel_timer, close_all_of, fail_close_workspace, stop_from, stop,
}
use msks.Consent.Engine.Once.{
  fail_close-Ended, IsOnce, Ended-IsOnce, fail_close-none, mem_text-filter,
}

abbrev pub is_key : Text → Dict Text Text → Bool
is_key j items = not (is_none (get j items))

abbrev shutdown : Reason
shutdown = because (codes "shutdown")

-- The workspace holds the request.
abbrev pub owns : Text → Text → Engine → Bool
owns w j e = owned_by w (get j e.holds)

-- The requests of one workspace are closed, and they alone.
record Closes (w : Text) (reason : Reason) (items : Dict Text Text) (e e' : Engine) : Type 0 where
  holds :
      (j : Text) → get j e'.holds ≡ (if is_key j items && owns w j e then none else get j e.holds)
  answers :
      (j : Text)
      → get j e'.answers
        ≡ (if is_key j items && owns w j e then some (closed reason) else get j e.answers)
  once : IsOnce e'

module _ (audit : EgressConsent → Option Text) (raises : Call → Bool) where
  -- One request is closed and its timer cancelled.
  close_one : Text → Reason → ℕ → Engine → Engine
  close_one id reason now e = cancel_timer id (fail_close audit raises id reason now e)

  module _ (id : Text) (reason : Reason) (now : ℕ) (e : Engine) where
    close_one-holds :
        (j : Text)
        → get j (close_one id reason now e).holds ≡ (if text_eq id j then none else get j e.holds)
    unfolding close_one
    close_one-holds j = elim (Option-cases (get id e.holds)) [
      | inl free ↦
          rw (fail_close-none audit raises id reason now e free)
            (ground (arith, text_eq_iff id j, ap (λ k. get k e.holds) {x = id} {y = j}))
      | inr (w, h) ↦ (fail_close-Ended audit raises id w reason now e h).holds j
    ]

    close_one-answers :
        (j : Text)
        → get j (close_one id reason now e).answers ≡ (
            if text_eq id j && not (is_none (get j e.holds)) && is_none (get j e.answers)
            then some (closed reason)
            else get j e.answers)
    unfolding close_one
    close_one-answers j = elim (Option-cases (get id e.holds)) [
      | inl free ↦
          rw (fail_close-none audit raises id reason now e free)
            (ground (arith, text_eq_iff id j, ap (λ k. get k e.holds) {x = id} {y = j}))
      | inr (w, h) ↦
          (fail_close-Ended audit raises id w reason now e h).answers j
          ∙ ground (arith, text_eq_iff id j, ap (λ k. get k e.holds) {x = id} {y = j})
    ]

    close_one-IsOnce : IsOnce e → IsOnce (close_one id reason now e)
    unfolding close_one
    close_one-IsOnce o = elim (Option-cases (get id e.holds)) [
      | inl free ↦ rw (fail_close-none audit raises id reason now e free) (record {
        unanswered = o.unanswered;
        timed = λ j. ground (
          arith,
          mem_text-filter id j e.timers,
          o.timed j,
          text_eq_iff j id,
          ap (λ k. get k e.holds) {x = id} {y = j},
        );
      })
      | inr (w, h) ↦ Ended-IsOnce (fail_close-Ended audit raises id w reason now e h) o
    ]

  stop_from-holds :
      (j : Text) (now : ℕ) (items : Dict Text Text) (e : Engine)
      → get j (stop_from audit raises items now e).holds
        ≡ (if is_key j items then none else get j e.holds)
  unfolding stop_from get close_one
  stop_from-holds j now [] e = refl
  stop_from-holds j now ((id, w) ∷ items) e =
      let closed_first = close_one id shutdown now e in
      stop_from-holds j now items closed_first ∙ ground (arith, close_one-holds id shutdown now e j)

  stop_from-answers :
      (j : Text) (now : ℕ) (items : Dict Text Text) (e : Engine)
      → IsOnce e
      → get j (stop_from audit raises items now e).answers ≡ (
          if is_key j items && not (is_none (get j e.holds))
          then some (closed shutdown)
          else get j e.answers)
  unfolding stop_from get close_one
  stop_from-answers j now [] e o = refl
  stop_from-answers j now ((id, w) ∷ items) e o =
      let closed_first = close_one id shutdown now e in
      stop_from-answers j now items closed_first (close_one-IsOnce id shutdown now e o)
      ∙ ground (
        arith,
        close_one-holds id shutdown now e j,
        close_one-answers id shutdown now e j,
        o.unanswered j,
      )

  -- Where no held request has an answer and exactly the held ones have a live timeout task: after a
  -- shutdown no hold is left, and every request that was held, and no other, has got a
  -- denial.
  pub stop_lem :
      (now : ℕ) (e : Engine)
      → IsOnce e
      → (j : Text)
      → (get j (stop audit raises now e).holds ≡ none)
        × (get j (stop audit raises now e).answers
            ≡ (if is_key j e.holds then some (closed shutdown) else get j e.answers))
  unfolding stop
  stop_lem now e o j = (
    stop_from-holds j now e.holds e ∙ ground arith,
    stop_from-answers j now e.holds e o ∙ ground arith,
  )

  Closes-mine :
      (w : Text) (reason : Reason) (now : ℕ) (id v : Text) (items : Dict Text Text) (e e' : Engine)
      → IsOnce e
      → owns w id e ≡ true
      → Closes w reason items (close_one id reason now e) e'
      → Closes w reason ((id, v) ∷ items) e e'
  unfolding get
  Closes-mine w reason now id v items e e' o mine c = record {
    holds = λ j. ground (
      arith,
      c.holds j,
      close_one-holds id reason now e j,
      text_eq_iff id j,
      ap (λ k. get k e.holds) {x = id} {y = j},
    );
    answers = λ j. ground (
      arith,
      c.answers j,
      close_one-holds id reason now e j,
      close_one-answers id reason now e j,
      o.unanswered j,
      text_eq_iff id j,
      ap (λ k. get k e.holds) {x = id} {y = j},
    );
    once = c.once;
  }

  Closes-other :
      (w : Text) (reason : Reason) (id v : Text) (items : Dict Text Text) (e e' : Engine)
      → owns w id e ≡ false
      → Closes w reason items e e'
      → Closes w reason ((id, v) ∷ items) e e'
  unfolding get
  Closes-other w reason id v items e e' other c = record {
    holds =
        λ j. ground (arith, c.holds j, text_eq_iff id j, ap (λ k. get k e.holds) {x = id} {y = j});
    answers = λ j.
        ground (arith, c.answers j, text_eq_iff id j, ap (λ k. get k e.holds) {x = id} {y = j});
    once = c.once;
  }

  close_all_of-Closes :
      (w : Text) (reason : Reason) (now : ℕ) (items : Dict Text Text) (e : Engine)
      → IsOnce e
      → Closes w reason items e (close_all_of audit raises w reason now items e).1
  unfolding close_all_of get close_one
  close_all_of-Closes w reason now [] e o = record {
    holds = λ j. refl;
    answers = λ j. refl;
    once = o;
  }
  close_all_of-Closes w reason now ((id, v) ∷ items) e o =
      let e' = close_one id reason now e in
      let inside = close_all_of-Closes w reason now items e' (close_one-IsOnce id reason now e o) in
      let outside = close_all_of-Closes w reason now items e o in
      elim (Bool-cases (owned_by w (get id e.holds))) [
        | inl mine ↦ rw mine (Closes-mine w reason now id v items e _ o mine inside)
        | inr other ↦ rw other (Closes-other w reason id v items e _ other outside)
      ]

  -- From a state where no held request has an answer and exactly the held ones have a live timeout
  -- task, closing a workspace's holds ends every hold that it has with a denial, leaves the holds
  -- and the answers of every other request as they were, and gives such a state again.
  pub fail_close_workspace_lem :
      (w : Text) (reason : Reason) (now : ℕ) (e : Engine)
      → IsOnce e
      → ((j : Text)
          → (get j (fail_close_workspace audit raises w reason now e).1.holds
              ≡ (if owns w j e then none else get j e.holds))
            × (get j (fail_close_workspace audit raises w reason now e).1.answers
                ≡ (if owns w j e then some (closed reason) else get j e.answers)))
        × IsOnce (fail_close_workspace audit raises w reason now e).1
  unfolding fail_close_workspace
  fail_close_workspace_lem w reason now e o =
      let c = close_all_of-Closes w reason now e.holds e o in
      (λ j. (ground (arith, c.holds j), ground (arith, c.answers j)), c.once)
