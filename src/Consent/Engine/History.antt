-- ===== src/Consent/Engine/History.antt =====
-- Histories of `ConsentEngine` (src/msks/msks/consent/coordinator.py): a verdict, a timeout and a
-- teardown race for the same hold, in any order of whole calls.
use msks.Prelude.{
  ℕ, Bool, true, not, ◌||◌, ◌≡◌, Option, none, some, [], ◌∷◌, Text, codes, text_eq_iff, mem_text,
  ap, arith, is_none, Bool-cases, Option-cases, inl, inr,
}
use msks.Prelude.Dict.{Dict, get, text_key, get-put}
use msks.Egress.Lifecycle.{Decision, Duration}
use msks.Consent.Row.{EgressConsent}
use msks.Consent.Verdict.{Reason, Verdict, because}
use msks.Consent.Engine.State.{Engine, Call}
use msks.Consent.Engine.Gate.{hold}
use msks.Consent.Engine.Adds.{Adds, hold-Adds}
use msks.Consent.Engine.Settle.{
  owned_by, resolve, fail_close, cancel_timer, timeout_hold, close_all_of, fail_close_workspace,
  stop_from, stop,
}
use msks.Consent.Engine.Once.{
  Ended, IsOnce, Ended-IsOnce, resolve-Ended, resolve-none, fail_close-Ended, fail_close-none,
  mem_text-filter,
}

-- From `e` to `d` the invariant holds on, an answer stays the answer, and a request that was held is
-- held still or has an answer.
pub record IsSound (e d : Engine) : Type 0 where
  pub once : IsOnce d
  pub final : (j : Text) (v : Verdict) → get j e.answers ≡ some v → get j d.answers ≡ some v
  pub answered :
      (j : Text)
      → (is_none (get j e.holds)
          || not (is_none (get j d.holds))
          || not (is_none (get j d.answers)))
        ≡ true

IsSound-refl : (e : Engine) → IsOnce e → IsSound e e
IsSound-refl e o = record { once = o; final = λ j v h. h; answered = λ j. ground arith }

IsSound-trans : (e d c : Engine) → IsSound e d → IsSound d c → IsSound e c
IsSound-trans e d c s t = record {
  once = t.once;
  final = λ j v h. t.final j v (s.final j v h);
  answered = λ j. elim (Option-cases (get j d.answers)) [
    | inl free ↦ ground (arith, s.answered j, t.answered j)
    | inr (v, done) ↦ ground (arith, t.final j v done)
  ];
}

Ended-IsSound : (id : Text) (v : Verdict) (e d : Engine) → Ended id v e d → IsOnce e → IsSound e d
Ended-IsSound id v e d ended o = record {
  once = Ended-IsOnce ended o;
  final = λ j u h. ground (arith, ended.answers j, h);
  answered = λ j. ground (arith, ended.answers j, ended.holds j);
}

module _ (audit : EgressConsent → Option Text) (raises : Call → Bool) where
  close_one-IsSound :
      (id : Text) (reason : Reason) (now : ℕ) (e : Engine)
      → IsOnce e
      → IsSound e (cancel_timer id (fail_close audit raises id reason now e))
  close_one-IsSound id reason now e o = elim (Option-cases (get id e.holds)) [
    | inl free ↦ rw (fail_close-none audit raises id reason now e free) (record {
      once = record {
        unanswered = o.unanswered;
        timed = λ j. ground (
          arith,
          mem_text-filter id j e.timers,
          o.timed j,
          text_eq_iff j id,
          ap (λ k. get k e.holds) {x = id} {y = j},
        );
      };
      final = λ j v h. h;
      answered = λ j. ground arith;
    })
    | inr (w, h) ↦ Ended-IsSound id _ e _ (fail_close-Ended audit raises id w reason now e h) o
  ]

  stop_from-IsSound :
      (items : Dict Text Text) (now : ℕ) (e : Engine)
      → IsOnce e
      → IsSound e (stop_from audit raises items now e)
  unfolding stop_from
  stop_from-IsSound [] now e o = IsSound-refl e o
  stop_from-IsSound ((id, w) ∷ items) now e o =
      let s = close_one-IsSound id (because (codes "shutdown")) now e o in
      IsSound-trans e _ _ s (stop_from-IsSound items now _ s.once)

  close_all_of-IsSound :
      (w : Text) (reason : Reason) (now : ℕ) (items : Dict Text Text) (e : Engine)
      → IsOnce e
      → IsSound e (close_all_of audit raises w reason now items e).1
  unfolding close_all_of
  close_all_of-IsSound w reason now [] e o = IsSound-refl e o
  close_all_of-IsSound w reason now ((id, v) ∷ items) e o =
      elim (Bool-cases (owned_by w (get id e.holds))) [
        | inl mine ↦
            let s = close_one-IsSound id reason now e o in
            rw (mine, close_all_of)
              (IsSound-trans e _ _ s (close_all_of-IsSound w reason now items _ s.once))
        | inr other ↦ rw (other, close_all_of) (close_all_of-IsSound w reason now items e o)
      ]

  resolve-IsSound :
      (id by : Text) (d : Decision) (duration : Duration) (now : ℕ) (e : Engine)
      → IsOnce e
      → IsSound e (resolve audit raises id d by duration now e).1
  resolve-IsSound id by d duration now e o = elim (Option-cases (get id e.holds)) [
    | inl free ↦ rw (resolve-none audit raises id by d duration now e free) (IsSound-refl e o)
    | inr (w, h) ↦
        Ended-IsSound id _ e _ (resolve-Ended audit raises id by w d duration now e h).1 o
  ]

-- A request with a fresh id is added, and nothing else changes.
Adds-IsSound :
    (id w : Text) (e d : Engine)
    → get id e.holds ≡ none
    → get id e.answers ≡ none
    → IsOnce e
    → Adds id w e d
    → IsSound e d
unfolding mem_text
Adds-IsSound id w e d free open_ o (inl s) = record {
  once = record {
    unanswered = λ j. rw (s.0, s.2) (o.unanswered j);
    timed = λ j. rw (s.0, s.1) (o.timed j);
  };
  final = λ j v h. rw s.2 h;
  answered = λ j. rw s.0 (ground arith);
}
Adds-IsSound id w e d free open_ o (inr s) = record {
  once = record {
    unanswered = λ j.
        rw (s.0, s.2, get-put)
          (ground (
            arith,
            o.unanswered j,
            open_,
            text_eq_iff id j,
            ap (λ k. get k e.answers) {x = id} {y = j},
          ));
    timed =
        λ j. rw (s.0, s.1, get-put) (ground (arith, o.timed j, text_eq_iff id j, text_eq_iff j id));
  };
  final = λ j v h. rw s.2 h;
  answered = λ j. rw (s.0, get-put) (ground arith);
}

module _ (audit : EgressConsent → Option Text) (raises : Call → Bool) where
  -- A whole call of the engine. The id of a hold is a fresh `uuid4`.
  pub data Step : Engine → Engine → Type 0 where
    holds :
        (id w host : Text) (port now : ℕ) (e : Engine)
        → get id e.holds ≡ none
        → get id e.answers ≡ none
        → Step e (hold audit raises id w host port now e).1
    resolves :
        (id by : Text) (d : Decision) (duration : Duration) (now : ℕ) (e : Engine)
        → Step e (resolve audit raises id d by duration now e).1
    times_out : (id : Text) (now : ℕ) (e : Engine) → Step e (timeout_hold audit raises id now e)
    closes :
        (w : Text) (reason : Reason) (now : ℕ) (e : Engine)
        → Step e (fail_close_workspace audit raises w reason now e).1
    stops : (now : ℕ) (e : Engine) → Step e (stop audit raises now e)

  pub data Reaches : Engine → Engine → Type 0 where
    here : {e : Engine} → Reaches e e
    step : {e d c : Engine} → Reaches e d → Step d c → Reaches e c

  Step-IsSound : (e d : Engine) → IsOnce e → Step e d → IsSound e d
  unfolding timeout_hold fail_close_workspace stop
  Step-IsSound e d o (holds id w host port now _ free open_) =
      Adds-IsSound id w e _ free open_ o (hold-Adds audit raises id w host port now e)
  Step-IsSound e d o (resolves id by decision duration now _) =
      resolve-IsSound audit raises id by decision duration now e o
  Step-IsSound e d o (times_out id now _) =
      close_one-IsSound audit raises id (because (codes "timeout")) now e o
  Step-IsSound e d o (closes w reason now _) =
      close_all_of-IsSound audit raises w reason now e.holds e o
  Step-IsSound e d o (stops now _) = stop_from-IsSound audit raises e.holds now e o

  -- In whatever order holds, decisions, timeouts and teardowns arrive, and whichever calls of the
  -- model raise, where the id of each hold is new: from a state where no held request has an answer and exactly the held ones have a
  -- live timeout task, every later state is such a state; an answer, once given, stays the answer;
  -- and a request that is held never leaves the holds without an answer.
  pub Reaches-IsSound : (e d : Engine) → IsOnce e → Reaches e d → IsSound e d
  Reaches-IsSound e _ o here = IsSound-refl e o
  Reaches-IsSound e c o (step {d} r s) =
      let k = Reaches-IsSound e d o r in IsSound-trans e d c k (Step-IsSound d c k.once s)
