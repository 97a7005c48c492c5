-- ===== src/Net/Flow/Passes.antt =====
-- Which queued packets pass `FlowConsumer` (src/msks/msks/net/nfq.py), and what a decided connection
-- finds when it sends its first packet again.
use msks.Prelude.{
  ℕ, suc, ◌+◌, ◌≤◌, ◌<◌, Bool, true, false, not, ◌&&◌, Option, none, some, [], ◌∷◌, Text, length,
  lt→ltb, ◌==◌, if◌then◌else◌, any, is_none, ltb, Bool-cases, ◌∙◌, ◌≡◌, refl, arith, Option-cases,
  inl, inr,
}
use msks.Prelude.Dict.{Dict, get, put, get-put, beq_refl}
use msks.Consent.Session.{SessionMemory, allow_ttl}
use msks.Consent.Verdict.{Verdict}
use msks.Net.Bytes.{Bytes}
use msks.Net.Packet.{Parsed, parse_packet}
use msks.Net.Flow.{
  Flow, flow_beq, flow_key, Cached, Fate, accepted, dropped, retained, Held, Consumer, host_of,
  verdict_cache_ttl, verdict_cache_max, cached_verdict, apply_cached, accept_with_pin, deny_fast,
  session_gate, retain, route_uncached, route_flow, on_packet, decide, apply_verdict, apply_allow,
  apply_deny, trim, cache, finish_task,
}

abbrev pub is_accepted : Fate → Bool
is_accepted accepted = true
is_accepted dropped = false
is_accepted retained = false

-- the session memory lets the flow through
abbrev pub covered_by : (Text → Option Text) → Text → SessionMemory → Flow → ℕ → Bool
covered_by host_for w session (sport, dst, dport) now =
    not (dport == 0) && not (is_none (allow_ttl session w (host_of host_for w dst) dport now))

-- What an entry of the cache says: its verdict before its expiry, and from then on nothing.
abbrev pub cached_passes : ℕ → Option Cached → Bool → Bool
cached_passes now (some entry) otherwise = if ltb now entry.expire then entry.allows else otherwise
cached_passes now none otherwise = otherwise

-- What the code lets through at once.
abbrev pub parsed_passes :
    (Text → Option Text) → Text → SessionMemory → ℕ → Option (Option Parsed) → Consumer → Bool
parsed_passes host_for w session now none c = false
parsed_passes host_for w session now (some none) c = false
parsed_passes host_for w session now (some (some p)) c =
    cached_passes now (get (p.sport, p.dst, p.dport) c.verdicts) (
      not (any (flow_beq (p.sport, p.dst, p.dport)) c.inflight)
      && covered_by host_for w session (p.sport, p.dst, p.dport) now)

-- the entry that a verdict leaves
abbrev pub entry_of : Verdict → ℕ → Bool → Cached
entry_of verdict now named = record {
  allows = verdict.allows;
  expire = now + verdict_cache_ttl;
  named = named;
}

pub verdicts-apply_verdict :
    (raises : Bool) (flow : Flow) (verdict : Verdict) (named : Bool) (now : ℕ) (c : Consumer)
    → (apply_verdict raises flow verdict named now c).1.verdicts
      ≡ put flow (entry_of verdict now named) (trim c).verdicts
unfolding apply_verdict cache apply_allow apply_deny
verdicts-apply_verdict raises (sport, dst, dport) verdict named now c =
    elim (Option-cases verdict.pin_ttl) [
      | inl e ↦ simp e (ground arith)
      | inr (ttl, e) ↦ simp e (ground arith)
    ]

get-decided :
    (raises : Bool) (flow : Flow) (verdict : Verdict) (named : Bool) (now : ℕ) (c : Consumer)
    → get flow (apply_verdict raises flow verdict named now c).1.verdicts
      ≡ some (entry_of verdict now named)
get-decided raises flow verdict named now c =
    rw (verdicts-apply_verdict raises flow verdict named now c, get-put, beq_refl flow)

module _ (host_for : Text → Option Text) (w : Text) (session : SessionMemory) (packet now : ℕ) where
  route_uncached-accepted :
      (flow : Flow) (c : Consumer)
      → is_accepted (route_uncached host_for w session packet flow now c).0
        ≡ (not (any (flow_beq flow) c.inflight) && covered_by host_for w session flow now)
  unfolding route_uncached session_gate retain accept_with_pin deny_fast
  route_uncached-accepted (sport, dst, dport) c = ground arith

  route_flow-accepted :
      (flow : Flow) (c : Consumer)
      → is_accepted (route_flow host_for w session packet flow now c).0
        ≡ cached_passes now
            (get flow c.verdicts)
            (not (any (flow_beq flow) c.inflight) && covered_by host_for w session flow now)
  unfolding route_flow apply_cached cached_verdict
  route_flow-accepted flow c = elim (Option-cases (get flow c.verdicts)) [
    | inl e ↦ rw e (route_uncached-accepted flow c)
    | inr (entry, e) ↦ elim (Bool-cases (ltb now entry.expire)) [
      | inl fresh ↦ rw (e, fresh) (ground arith)
      | inr old ↦ rw (e, old) (route_uncached-accepted flow c)
    ]
  ]

  -- A queued packet passes at once in two cases alone: the cache has a verdict
  -- of its connection that has not expired and allows, or there is no unexpired verdict, the
  -- connection is not being held, it has a port, and the session memory allows the destination under its name. Every other packet,
  -- one that does not parse included, is dropped or held.
  pub on_packet-accepted :
      (payload : Bytes) (c : Consumer)
      → is_accepted (on_packet host_for w session packet payload now c).0
        ≡ parsed_passes host_for w session now (parse_packet payload) c
  unfolding on_packet
  on_packet-accepted payload c = elim (Option-cases (parse_packet payload)) [
    | inl e ↦ rw e refl
    | inr (none, e) ↦ rw e refl
    | inr (some p, e) ↦ rw e (route_flow-accepted (p.sport, p.dst, p.dport) c)
  ]

-- A verdict, once applied, holds for its connection while its cache entry stays: in every state `d` where
-- the cache has the entry that the end of the task left, whatever else has changed since, and
-- whatever the manager's pins do, a packet of the same connection less than 120 seconds after
-- the verdict passes where the verdict allowed and is dropped where it did not; it is not held.
pub route_flow-decide :
    (host_for : Text → Option Text) (w : Text) (session : SessionMemory) (raises named : Bool)
    (held : Held) (verdict : Verdict) (now later packet : ℕ) (c d : Consumer)
    → later < now + 120000
    → get held.flow d.verdicts ≡ get held.flow (decide raises named held verdict now c).1.verdicts
    → (route_flow host_for w session packet held.flow later d).0
      ≡ (if verdict.allows then accepted else dropped)
unfolding route_flow apply_cached cached_verdict decide finish_task
route_flow-decide host_for w session raises named held verdict now later packet c d soon kept =
    rw (kept ∙ get-decided raises held.flow verdict named now c)
      (rw (lt→ltb later (now + verdict_cache_ttl) soon) (ground arith))

length-put :
    (flow : Flow) (entry : Cached) (d : Dict Flow Cached)
    → length (put flow entry d) ≤ suc (length d)
unfolding put
length-put flow entry [] = omega arith
length-put flow entry ((f, e) ∷ d) = ground (arith, length-put flow entry d)

length-trim : (c : Consumer) → length (trim c).verdicts ≤ verdict_cache_max
unfolding trim
length-trim c = ground arith

-- After a verdict of the engine the cache holds at most 4097 entries, whatever it held before.
pub length-decide :
    (raises named : Bool) (held : Held) (verdict : Verdict) (now : ℕ) (c : Consumer)
    → length (decide raises named held verdict now c).1.verdicts ≤ 4097
unfolding decide finish_task
length-decide raises named held verdict now c =
    rw (verdicts-apply_verdict raises held.flow verdict named now c) (
      omega
        (arith, length-trim c, length-put held.flow (entry_of verdict now named) (trim c).verdicts))
