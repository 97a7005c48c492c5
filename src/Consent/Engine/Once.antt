-- ===== src/Consent/Engine/Once.antt =====
-- What the ends of a hold do to the holds, the timers and the answers.
use msks.Prelude.{
  ℕ, Bool, true, not, ◌&&◌, ◌||◌, Option, none, some, List, [], ◌∷◌, Text, text_eq, text_eq_iff,
  mem_text, ◌≡◌, refl, ◌∙◌, ap, arith, if◌then◌else◌, is_none, filter, Option-cases, inl, inr,
}
use msks.Prelude.Dict.{Dict, get, put, remove, get-put, get-remove, text_key}
use msks.Egress.Lifecycle.{Decision, Duration}
use mathlib.Core.Path.{subst}
use msks.Consent.Engine.Committed.{
  verdict_of, is_committed, built_verdict_lem, decide_or_none-committed,
}
use msks.Egress.Policy.{WorkspaceRow}
use msks.Consent.Row.{EgressConsent}
use msks.Consent.Verdict.{Verdict, Reason, closed, built_verdict}
use msks.Consent.Engine.State.{Engine, Call, call}
use msks.Consent.Engine.Frames.{rules_frame, broadcast_rules, frame_of}
use msks.Consent.Engine.Settle.{
  pop_hold, finish, fail_close_hold, expire_quietly, decide_or_none, settle, resolve, fail_close,
  cancel_timer,
}

-- The holds, the timers and the answers of two engines are the same.
record Same (a b : Engine) : Type 0 where
  holds : a.holds ≡ b.holds
  timers : a.timers ≡ b.timers
  answers : a.answers ≡ b.answers

module _ (raises : Call → Bool) (w : Text) (now : ℕ) where
  frame_of-Same : (o : Option WorkspaceRow) (e : Engine) → Same (frame_of raises w now o e).1 e
  unfolding call
  frame_of-Same none e = ground arith
  frame_of-Same (some row) e = ground arith

  rules_frame-Same : (e : Engine) → Same (rules_frame raises w now e).1 e
  unfolding rules_frame call
  rules_frame-Same e = ground (arith, frame_of-Same (get w e.workspaces) e)

  broadcast_rules-Same : (e : Engine) → Same (broadcast_rules raises w now e) e
  unfolding broadcast_rules
  broadcast_rules-Same e = ground (arith, rules_frame-Same e)

-- What the end of the hold of `id` by the verdict `v` does: the hold and its timer go, the future
-- gets `v` unless it has an answer, and every other request is as it was.
pub record Ended (id : Text) (v : Verdict) (before after : Engine) : Type 0 where
  pub holds : (j : Text) → get j after.holds ≡ (if text_eq id j then none else get j before.holds)
  pub timers :
      (j : Text) → mem_text j after.timers ≡ (mem_text j before.timers && not (text_eq j id))
  pub answers :
      (j : Text)
      → get j after.answers
        ≡ (if text_eq id j && is_none (get j before.answers) then some v else get j before.answers)

pub mem_text-filter :
    (id j : Text) (ts : List Text)
    → mem_text j (filter (λ t. not (text_eq t id)) ts) ≡ (mem_text j ts && not (text_eq j id))
unfolding mem_text filter
mem_text-filter id j [] = refl
mem_text-filter id j (t ∷ ts) = ground (arith, mem_text-filter id j ts, text_eq_iff j t)

Ended-Same : {id : Text} {v : Verdict} {a b c : Engine} → Ended id v a b → Same c b → Ended id v a c
Ended-Same {b} {c} h s = record {
  holds = λ j. ap (λ (d : Dict Text Text). get j d) s.holds ∙ h.holds j;
  timers = λ j. ap (mem_text j) s.timers ∙ h.timers j;
  answers = λ j. ap (λ (d : Dict Text Verdict). get j d) s.answers ∙ h.answers j;
}

-- The hold is popped and the timer cancelled.
abbrev pub popped : Text → Engine → Engine
popped id e = record e {
  holds = remove id e.holds;
  timers = filter (λ t. not (text_eq t id)) e.timers;
}

-- The answer is put unless there is one.
answer_put :
    (id j : Text) (v : Verdict) (answers : Dict Text Verdict)
    → get id answers ≡ none
    → get j (put id v answers)
      ≡ (if text_eq id j && is_none (get j answers) then some v else get j answers)
answer_put id j v answers h =
    rw get-put (ground (arith, text_eq_iff id j, ap (λ k. get k answers) {x = id} {y = j}))

answer_kept :
    (id j : Text) (v w : Verdict) (answers : Dict Text Verdict)
    → get id answers ≡ some w
    → get j answers ≡ (if text_eq id j && is_none (get j answers) then some v else get j answers)
answer_kept id j v w answers h =
    ground (arith, text_eq_iff id j, ap (λ k. get k answers) {x = id} {y = j})

finish-popped : (id : Text) (v : Verdict) (e : Engine) → Ended id v e (finish id v (popped id e))
unfolding finish
finish-popped id v e = elim (Option-cases (get id e.answers)) [
  | inl free ↦
      rw (free, finish)
        (record {
          holds = λ j. get-remove id j e.holds;
          timers = λ j. mem_text-filter id j e.timers;
          answers = λ j. answer_put id j v e.answers free;
        })
  | inr (w, done) ↦
      rw (done, finish)
        (record {
          holds = λ j. get-remove id j e.holds;
          timers = λ j. mem_text-filter id j e.timers;
          answers = λ j. answer_kept id j v w e.answers done;
        })
]

-- `finish` writes nothing but the answers.
finish_fields :
    (id : Text) (v : Verdict) (e : Engine)
    → ((finish id v e).holds ≡ e.holds) × ((finish id v e).timers ≡ e.timers)
unfolding finish
finish_fields id v e = ground arith

finish-answers :
    (id : Text) (v : Verdict) (a b : Engine)
    → a.answers ≡ b.answers
    → (finish id v a).answers ≡ (finish id v b).answers
unfolding finish
finish-answers id v a b h = elim (Option-cases (get id b.answers)) [
  | inl free ↦
      let free' : get id a.answers ≡ none = ap (λ (d : Dict Text Verdict). get id d) h ∙ free in
      rw (free, free', finish) (ground arith)
  | inr (w, done) ↦
      let done' : get id a.answers ≡ some w = ap (λ (d : Dict Text Verdict). get id d) h ∙ done in
      rw (done, done', finish) (ground arith)
]

finish-Same :
    (id : Text) (v : Verdict) {a b : Engine} → Same a b → Same (finish id v a) (finish id v b)
finish-Same id v {a} {b} s =
    let f = finish_fields id v a in
    let g = finish_fields id v b in let h = finish-answers id v a b s.answers in ground arith

fail_close_hold-finish :
    (id w : Text) (reason : Reason) (e : Engine)
    → Same (fail_close_hold id w reason e) (finish id (closed reason) e)
unfolding fail_close_hold finish
fail_close_hold-finish id w reason e = elim (Option-cases (get id e.answers)) [
  | inl free ↦ rw (free, fail_close_hold, finish) (ground arith)
  | inr (v, done) ↦ rw (done, fail_close_hold, finish) (ground arith)
]

module _ (audit : EgressConsent → Option Text) (raises : Call → Bool) where
  expire_quietly-Same :
      (id : Text) (now : ℕ) (e : Engine) → Same (expire_quietly audit raises id now e) e
  unfolding expire_quietly
  expire_quietly-Same id now e = ground arith

  decide_or_none-Same :
      (id by : Text) (d : Decision) (duration : Duration) (now : ℕ) (e : Engine)
      → Same (decide_or_none audit raises id d by duration now e).1 e
  unfolding decide_or_none
  decide_or_none-Same id by d duration now e = ground arith

  settle-Ended :
      (id w : Text) (d : Decision) (duration : Duration) (now : ℕ) (before : Engine)
      (o : Option EgressConsent) (e : Engine)
      → Same e (popped id before)
      → let (v, after) = settle audit raises id w d duration now (o, e) in
        (v ≡ (built_verdict o d duration).0) × Ended id (built_verdict o d duration).0 before after
  unfolding settle
  settle-Ended id w d duration now before none e s =
      let v = (built_verdict none d duration).0 in
      let x = expire_quietly-Same id now (finish id v e) in
      let y = finish-Same id v s in (refl, Ended-Same (finish-popped id v before) (ground arith))
  settle-Ended id w d duration now before (some row) e s =
      let v = (built_verdict (some row) d duration).0 in
      let y = finish-Same id v s in (refl, Ended-Same (finish-popped id v before) (ground arith))

  resolve-built :
      (id by w : Text) (d : Decision) (duration : Duration) (now : ℕ) (e : Engine)
      → get id e.holds ≡ some w
      → let v =
          (built_verdict
            (decide_or_none audit raises id d by duration now (popped id e)).0
            d
            duration).0 in
        ((resolve audit raises id d by duration now e).0 ≡ some v)
        × Ended id v e (resolve audit raises id d by duration now e).1
  unfolding resolve pop_hold
  resolve-built id by w d duration now e h =
      let r = decide_or_none audit raises id d by duration now (popped id e) in
      let s =
        settle-Ended id w d duration now e r.0 r.1
          (decide_or_none-Same id by d duration now (popped id e)) in
      rw (h, pop_hold, resolve)
        (
          ap some s.0,
          Ended-Same s.1
              (broadcast_rules-Same raises w now (settle audit raises id w d duration now r).1),
        )

  -- A decision on a held request answers it with the decision, and a pin of the duration's time (a
  -- denial's is ten seconds where the duration has none), where the row of the request is
  -- committed: the write raises no exception, the decision is a verdict, the duration is known
  -- and the row is pending. Where it is not, the answer is the denial of a row that is gone. In one step the hold and its
  -- timer end, the future gets this answer unless it has one, and every other request stays.
  pub resolve-Ended :
      (id by w : Text) (d : Decision) (duration : Duration) (now : ℕ) (e : Engine)
      → get id e.holds ≡ some w
      → let v = verdict_of (is_committed audit raises id d duration e) d duration in
        ((resolve audit raises id d by duration now e).0 ≡ some v)
        × Ended id v e (resolve audit raises id d by duration now e).1
  resolve-Ended id by w d duration now e h =
      subst
        (λ v.
          ((resolve audit raises id d by duration now e).0 ≡ some v)
          × Ended id v e (resolve audit raises id d by duration now e).1)
        (built_verdict_lem _ (is_committed audit raises id d duration e) d duration
          (decide_or_none-committed audit raises id by d duration now (popped id e)))
        (resolve-built id by w d duration now e h)

  pub resolve-none :
      (id by : Text) (d : Decision) (duration : Duration) (now : ℕ) (e : Engine)
      → get id e.holds ≡ none
      → resolve audit raises id d by duration now e ≡ (none, e)
  unfolding resolve pop_hold
  resolve-none id by d duration now e h = rw (h, pop_hold, resolve)

  pub fail_close-none :
      (id : Text) (reason : Reason) (now : ℕ) (e : Engine)
      → get id e.holds ≡ none
      → fail_close audit raises id reason now e ≡ e
  unfolding fail_close
  fail_close-none id reason now e h = rw (h, fail_close)

  -- A hold that is closed (and its timer cancelled, as the callers do) answers a denial with the
  -- caller's reason, unless it has an answer.
  pub fail_close-Ended :
      (id w : Text) (reason : Reason) (now : ℕ) (e : Engine)
      → get id e.holds ≡ some w
      → Ended id (closed reason) e (cancel_timer id (fail_close audit raises id reason now e))
  unfolding fail_close
  fail_close-Ended id w reason now e h =
      let unheld = record e { holds = remove id e.holds } in
      let x = expire_quietly audit raises id now unheld in
      let quiet = expire_quietly-Same id now unheld in
      let last = fail_close_hold-finish id w reason x in
      let f = finish_fields id (closed reason) x in
      let g = finish_fields id (closed reason) (popped id e) in
      let same = finish-answers id (closed reason) x (popped id e) quiet.answers in
      rw (h, fail_close) (Ended-Same (finish-popped id (closed reason) e) (ground arith))

-- A held request has no answer yet, and exactly the held requests have a live timeout task.
pub record IsOnce (e : Engine) : Type 0 where
  pub unanswered : (j : Text) → (is_none (get j e.holds) || is_none (get j e.answers)) ≡ true
  pub timed : (j : Text) → mem_text j e.timers ≡ not (is_none (get j e.holds))

pub Ended-IsOnce : {id : Text} {v : Verdict} {a b : Engine} → Ended id v a b → IsOnce a → IsOnce b
Ended-IsOnce {id} {v} {a} {b} h o = record {
  unanswered = λ j. ground (arith, h.holds j, h.answers j, o.unanswered j);
  timed = λ j. ground (arith, h.holds j, h.timers j, o.timed j, text_eq_iff id j, text_eq_iff j id);
}
