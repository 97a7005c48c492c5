-- ===== src/Net/Flow/Reach.antt =====
-- The histories of `FlowConsumer` (src/msks/msks/net/nfq.py) while its queue is bound.
use msks.Prelude.{
  ℕ, Bool, true, false, not, ◌||◌, Option, none, some, List, [], ◌∷◌, Text, ◌==◌, any, map, ◌≡◌,
  refl, ap, sym, ◌∙◌, arith, Bool-cases, Option-cases, inl, inr,
}
use msks.Consent.Session.{SessionMemory}
use msks.Consent.Verdict.{Verdict}
use msks.Net.Bytes.{Bytes}
use msks.Net.Packet.{parse_packet}
use msks.Net.Flow.{
  Flow, flow_beq, Held, Consumer, Fate, Cached, cached_verdict, apply_cached, accept_with_pin,
  deny_fast, session_gate, retain, route_uncached, route_flow, on_packet, decide, cache, pin,
  covered, or_retain,
}
use msks.Net.Flow.Inflight.{flow_of, clashes, Among, IsTracked, decide-IsTracked}

-- Each queued packet is an object of its own.
abbrev pub is_new : ℕ → Consumer → Bool
is_new packet c = not (any (λ t. packet == t.packet) c.tasks)

-- A packet arrives, or a verdict for a retained packet does.
pub data Step (host_for : Text → Option Text) (w : Text) : Consumer → Consumer → Type 0 where
  arrives :
      (session : SessionMemory) (packet : ℕ) (payload : Bytes) (now : ℕ) (c : Consumer)
      → is_new packet c ≡ true
      → Step host_for w c (on_packet host_for w session packet payload now c).1
  ends :
      (raises named : Bool) (held : Held) (verdict : Verdict) (now : ℕ) (c : Consumer)
      → Among held c.tasks
      → Step host_for w c (decide raises named held verdict now c).1

abbrev pub empty : Consumer
empty = record { verdicts = []; inflight = []; tasks = []; pins = [] }

pub data Reaches (host_for : Text → Option Text) (w : Text) : Consumer → Type 0 where
  start : Reaches host_for w empty
  step : {c d : Consumer} → Reaches host_for w c → Step host_for w c d → Reaches host_for w d

-- The tasks and the in-flight set of two states agree.
record SameTasks (c d : Consumer) : Type 0 where
  tasks : d.tasks ≡ c.tasks
  inflight : d.inflight ≡ c.inflight

SameTasks-IsTracked : (c d : Consumer) → SameTasks c d → IsTracked c → IsTracked d
SameTasks-IsTracked c d same tracked = record {
  flows = rw (same.inflight, same.tasks) tracked.flows;
  single = rw same.tasks tracked.single;
}

any-clashes :
    (t : Held) (ts : List Held)
    → any (clashes t) ts
      ≡ (any (flow_beq t.flow) (map flow_of ts) || any (λ s. t.packet == s.packet) ts)
unfolding any
any-clashes t [] = refl
any-clashes t (s ∷ ts) = ground (arith, any-clashes t ts)

module _ (host_for : Text → Option Text) (w : Text) (session : SessionMemory) (packet now : ℕ) where
  covered-IsTracked :
      (allows denies : Option ℕ) (flow : Flow) (named : Bool) (c : Consumer)
      (kept : Fate × Consumer)
      → IsTracked c
      → IsTracked kept.1
      → IsTracked (or_retain host_for w (covered allows denies flow now named c) kept).1
  unfolding accept_with_pin deny_fast cache pin
  covered-IsTracked (some ttl) denies (sport, dst, dport) named c kept tracked k =
      SameTasks-IsTracked c _ (record { tasks = refl; inflight = refl }) tracked
  covered-IsTracked none (some ttl) (sport, dst, dport) named c kept tracked k =
      SameTasks-IsTracked c _ (record { tasks = refl; inflight = refl }) tracked
  covered-IsTracked none none flow named c kept tracked k = k

  gate-IsTracked :
      (flow : Flow) (c : Consumer) (kept : Fate × Consumer)
      → IsTracked c
      → IsTracked kept.1
      → IsTracked (or_retain host_for w (session_gate host_for w session flow now c) kept).1
  unfolding session_gate
  gate-IsTracked (sport, dst, dport) c kept tracked k = elim (Bool-cases (dport == 0)) [
    | inl e ↦ rw e k
    | inr e ↦ rw e (covered-IsTracked _ _ (sport, dst, dport) _ c kept tracked k)
  ]

  retain-IsTracked :
      (flow : Flow) (c : Consumer)
      → any (flow_beq flow) c.inflight ≡ false
      → is_new packet c ≡ true
      → IsTracked c
      → IsTracked (retain host_for w packet flow c).1
  unfolding retain
  retain-IsTracked (sport, dst, dport) c free new tracked =
      let task : Held = record { packet = packet; flow = (sport, dst, dport) } in
      let free' = ap (any (flow_beq (sport, dst, dport))) (sym tracked.flows) ∙ free in
      record {
        flows = ap (λ flows. (sport, dst, dport) ∷ flows) tracked.flows;
        single = (any-clashes task c.tasks ∙ ground (arith, free', new), tracked.single);
      }

  route_uncached-IsTracked :
      (flow : Flow) (c : Consumer)
      → is_new packet c ≡ true
      → IsTracked c
      → IsTracked (route_uncached host_for w session packet flow now c).1
  unfolding route_uncached
  route_uncached-IsTracked flow c new tracked = elim (Bool-cases (any (flow_beq flow) c.inflight)) [
    | inl e ↦ rw e tracked
    | inr e ↦ rw e (gate-IsTracked flow c _ tracked (retain-IsTracked flow c e new tracked))
  ]

  apply_cached-IsTracked :
      (entry : Cached) (flow : Flow) (c : Consumer)
      → IsTracked c
      → IsTracked (apply_cached entry flow c).1
  unfolding apply_cached pin
  apply_cached-IsTracked entry (sport, dst, dport) c tracked = elim (Bool-cases entry.allows) [
    | inl e ↦ simp e tracked
    | inr e ↦ elim (Bool-cases (dport == 0)) [
      | inl e' ↦ simp (e, e') tracked
      | inr e' ↦
          simp (e, e') (SameTasks-IsTracked c _ (record { tasks = refl; inflight = refl }) tracked)
    ]
  ]

  on_packet-IsTracked :
      (payload : Bytes) (c : Consumer)
      → is_new packet c ≡ true
      → IsTracked c
      → IsTracked (on_packet host_for w session packet payload now c).1
  unfolding on_packet route_flow
  on_packet-IsTracked payload c new tracked = elim (Option-cases (parse_packet payload)) [
    | inl e ↦ rw e tracked
    | inr (none, e) ↦ rw e tracked
    | inr (some p, e) ↦ rw e (elim (Option-cases (cached_verdict (p.sport, p.dst, p.dport) now c)) [
      | inl e' ↦ rw e' (route_uncached-IsTracked (p.sport, p.dst, p.dport) c new tracked)
      | inr (entry, e') ↦ rw e' (apply_cached-IsTracked entry (p.sport, p.dst, p.dport) c tracked)
    ])
  ]

-- In every state that arrivals of new packets and verdicts for held ones lead to, the in-flight
-- flows are exactly those of the tasks, and no two tasks have the same connection or packet.
pub Reaches-IsTracked :
    {host_for : Text → Option Text} {w : Text} (c : Consumer) → Reaches host_for w c → IsTracked c
Reaches-IsTracked c start = record { flows = refl; single = tt }
Reaches-IsTracked c (step r (arrives session packet payload now b new)) =
    on_packet-IsTracked _ _ session packet now payload b new (Reaches-IsTracked b r)
Reaches-IsTracked c (step r (ends raises named held verdict now b i)) =
    decide-IsTracked raises named held verdict now b i (Reaches-IsTracked b r)
