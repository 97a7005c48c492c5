-- ===== src/Net/Flow/Inflight.antt =====
-- The in-flight set of `FlowConsumer` (src/msks/msks/net/nfq.py) against its `decide` tasks.
use msks.Prelude.{
  ℕ, Bool, false, not, ◌||◌, List, [], ◌∷◌, ◌==◌, any, filter, map, ◌≡◌, ◌⊎◌, refl, sym, arith,
  Bool-cases, Option-cases, inl, inr,
}
use mathlib.Core.Path.{subst}
use msks.Consent.Verdict.{Verdict}
use msks.Net.Flow.{
  Flow, flow_beq, flow_beq_iff, Held, Consumer, decide, apply_verdict, apply_allow, apply_deny,
  trim, cache, pin, finish_task,
}

abbrev pub flow_of : Held → Flow
flow_of held = held.flow

-- Two tasks for one connection, or for one packet.
abbrev pub clashes : Held → Held → Bool
clashes t s = flow_beq t.flow s.flow || t.packet == s.packet

abbrev pub NoClash : List Held → Type 0
NoClash [] = Unit
NoClash (t ∷ ts) = (any (clashes t) ts ≡ false) × NoClash ts

abbrev pub Among : Held → List Held → Type 0
Among held [] = ⊥
Among held (t ∷ ts) = (held ≡ t) ⊎ Among held ts

-- The in-flight flows are those of the tasks, in their order; no connection has two tasks.
pub record IsTracked (c : Consumer) : Type 0 where
  pub flows : c.inflight ≡ map flow_of c.tasks
  pub single : NoClash c.tasks

keep_flows :
    (t : Held) (ts : List Held)
    → any (clashes t) ts ≡ false
    → filter (λ flow. not (flow_beq flow t.flow)) (map flow_of ts) ≡ map flow_of ts
unfolding any filter
keep_flows t [] h = refl
keep_flows t (s ∷ ts) h =
    ground (arith, keep_flows t ts, flow_beq_iff t.flow s.flow, flow_beq_iff s.flow t.flow)

keep_tasks :
    (t : Held) (ts : List Held)
    → any (clashes t) ts ≡ false
    → filter (λ task. not (task.packet == t.packet)) ts ≡ ts
unfolding any filter
keep_tasks t [] h = refl
keep_tasks t (s ∷ ts) h = ground (arith, keep_tasks t ts)

-- An element of a list that clashes with nothing in it clashes not.
Among-clash :
    (t held : Held) (ts : List Held)
    → Among held ts
    → any (clashes t) ts ≡ false
    → clashes t held ≡ false
unfolding any
Among-clash t held [] i h = elim i [ ]
Among-clash t held (s ∷ ts) (inl e) h = rw e (ground arith)
Among-clash t held (s ∷ ts) (inr i) h = Among-clash t held ts i (ground arith)

-- The filters of the end of a task agree.
abbrev SameEnd : List Held → Held → Type 0
SameEnd ts held =
    filter (λ flow. not (flow_beq flow held.flow)) (map flow_of ts)
    ≡ map flow_of (filter (λ task. not (task.packet == held.packet)) ts)

finish_head : (t : Held) (ts : List Held) → any (clashes t) ts ≡ false → SameEnd (t ∷ ts) t
unfolding filter
finish_head t ts h =
    ground (arith, keep_flows t ts h, keep_tasks t ts h, flow_beq_iff t.flow t.flow)

finish_flows : (held : Held) (ts : List Held) → Among held ts → NoClash ts → SameEnd ts held
unfolding filter
finish_flows held [] i h = elim i [ ]
finish_flows held (t ∷ ts) (inl e) h = subst (SameEnd (t ∷ ts)) (sym e) (finish_head t ts h.0)
finish_flows held (t ∷ ts) (inr i) h =
    ground (
      arith,
      finish_flows held ts i h.1,
      Among-clash t held ts i h.0,
      flow_beq_iff t.flow held.flow,
    )

any-filter : (p q : Held → Bool) (ts : List Held) → any q ts ≡ false → any q (filter p ts) ≡ false
unfolding any filter
any-filter p q [] h = refl
any-filter p q (t ∷ ts) h = ground (arith, any-filter p q ts)

filter-NoClash : (p : Held → Bool) (ts : List Held) → NoClash ts → NoClash (filter p ts)
unfolding filter
filter-NoClash p [] h = tt
filter-NoClash p (t ∷ ts) h = elim (Bool-cases (p t)) [
  | inl e ↦ rw e (any-filter p (clashes t) ts h.0, filter-NoClash p ts h.1)
  | inr e ↦ rw e (filter-NoClash p ts h.1)
]

-- What a verdict does to the tasks and the flows before the end of its task: nothing.
tracked-apply_verdict :
    (raises : Bool) (flow : Flow) (verdict : Verdict) (named : Bool) (now : ℕ) (c : Consumer)
    → ((apply_verdict raises flow verdict named now c).1.tasks ≡ c.tasks)
      × ((apply_verdict raises flow verdict named now c).1.inflight ≡ c.inflight)
unfolding apply_verdict cache apply_allow apply_deny trim pin
tracked-apply_verdict raises (sport, dst, dport) verdict named now c =
    elim (Option-cases verdict.pin_ttl) [
      | inl e ↦ simp e (ground arith)
      | inr (ttl, e) ↦ simp e (ground arith)
    ]

pub decide-IsTracked :
    (raises named : Bool) (held : Held) (verdict : Verdict) (now : ℕ) (c : Consumer)
    → Among held c.tasks
    → IsTracked c
    → IsTracked (decide raises named held verdict now c).1
unfolding decide finish_task
decide-IsTracked raises named held verdict now c i tracked =
    let same = tracked-apply_verdict raises held.flow verdict named now c in
    record {
      flows = rw (same.0, same.1, tracked.flows) (finish_flows held c.tasks i tracked.single);
      single =
          rw same.0
            (filter-NoClash (λ task. not (task.packet == held.packet)) c.tasks tracked.single);
    }
