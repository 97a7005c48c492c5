-- ===== src/Net/Flow.antt =====
-- `FlowConsumer` of src/msks/msks/net/nfq.py: what happens to each queued packet of one workspace.
use msks.Prelude.{
  ℕ, ◌+◌, ◌*◌, Bool, true, false, not, ◌&&◌, ◌||◌, Option, none, some, List, [], ◌∷◌, ◌++◌, Text,
  text_eq, text_eq_iff, length, ltb, ◌==◌, if◌then◌else◌, filter, any, ◌≡◌, ◌↔◌, arith,
}
use msks.Prelude.Dict.{Eq, Dict, get, put}
use msks.Egress.Lifecycle.{second, once_reject}
use msks.Consent.Session.{SessionMemory, allow_ttl, deny_ttl}
use msks.Consent.Verdict.{Verdict}
use msks.Net.Bytes.{Bytes}
use msks.Net.Packet.{Parsed, parse_packet}
pub mod Inflight
pub mod Reach
pub mod Passes

-- `(src_port, dst_ip, dst_port)`
abbrev pub Flow : Type 0
Flow = ℕ × Text × ℕ

abbrev pub flow_beq : Flow → Flow → Bool
flow_beq (p, a, q) (r, b, s) = p == r && (text_eq a b && q == s)

pub flow_beq_iff : (x y : Flow) → (flow_beq x y ≡ true) ↔ (x ≡ y)
flow_beq_iff (p, a, q) (r, b, s) = ground (arith, text_eq_iff a b)

instance abbrev pub flow_key : Eq Flow
flow_key = record { beq = flow_beq; beq_iff = flow_beq_iff }

-- an entry of `_verdicts`
pub record Cached : Type 0 where
  pub allows : Bool
  pub expire : ℕ
  pub named : Bool

-- The rule pins that the consumer asks of the manager: `consent_allow` and `consent_reject`.
pub data Pin : Type 0 where
  consent_allow : Text → Option ℕ → ℕ → Bool → Pin
  consent_reject : Text → ℕ → ℕ → ℕ → Bool → Pin

-- What became of a packet.
pub data Fate : Type 0 where
  accepted dropped retained : Fate

-- A retained packet whose `decide` task waits for its verdict: its id and its flow.
pub record Held : Type 0 where
  pub packet : ℕ
  pub flow : Flow

-- `tasks` are the `decide` tasks; `pins` are the pins asked for, the oldest first.
pub record Consumer : Type 0 where
  pub verdicts : Dict Flow Cached
  pub inflight : List Flow
  pub tasks : List Held
  pub pins : List Pin

abbrev pub verdict_cache_max : ℕ
verdict_cache_max = 4096

abbrev pub verdict_cache_ttl : ℕ
verdict_cache_ttl = 120 * second

-- `dport or None`
abbrev pub port_or_none : ℕ → Option ℕ
port_or_none dport = if dport == 0 then none else some dport

abbrev pub or_text : Option Text → Text → Text
or_text none dst = dst
or_text (some host) dst = if text_eq host [] then dst else host

unfoldable pub pin : Pin → Consumer → Consumer
pin p c = record c { pins = c.pins ++ p ∷ [] }

unfoldable pub cache : Flow → Cached → Consumer → Consumer
cache flow entry c = record c { verdicts = put flow entry c.verdicts }

abbrev still_valid : ℕ → Option Cached → Option Cached
still_valid now none = none
still_valid now (some entry) = if ltb now entry.expire then some entry else none

unfoldable pub cached_verdict : Flow → ℕ → Consumer → Option Cached
cached_verdict flow now c = still_valid now (get flow c.verdicts)

-- `apply_cached`
unfoldable pub apply_cached : Cached → Flow → Consumer → Fate × Consumer
unfolding pin
apply_cached entry (sport, dst, dport) c = if entry.allows then (accepted, c) else (
  dropped,
  if dport == 0 then c else pin (consent_reject dst dport once_reject sport entry.named) c,
)

unfoldable pub accept_with_pin : Flow → ℕ → ℕ → Bool → Consumer → Fate × Consumer
unfolding pin cache
accept_with_pin (sport, dst, dport) now remaining named c = (
  accepted,
  cache (sport, dst, dport)
      (record { allows = true; expire = now + verdict_cache_ttl; named = named })
      (pin (consent_allow dst (port_or_none dport) remaining named) c),
)

unfoldable pub deny_fast : Flow → ℕ → ℕ → Bool → Consumer → Fate × Consumer
unfolding pin cache
deny_fast (sport, dst, dport) now remaining named c = (
  dropped,
  cache (sport, dst, dport)
      (record { allows = false; expire = now + verdict_cache_ttl; named = named })
      (pin (consent_reject dst dport remaining sport named) c),
)

-- the two lookups of `session_gate`, the allow first
abbrev pub covered : Option ℕ → Option ℕ → Flow → ℕ → Bool → Consumer → Option (Fate × Consumer)
covered (some remaining) denied flow now named c = some (accept_with_pin flow now remaining named c)
covered none (some denied) flow now named c = some (deny_fast flow now denied named c)
covered none none flow now named c = none

-- `host_for` is the naming of the manager, `workspace_id` the consumer's workspace and `session` the
-- engine's memory.
module _ (host_for : Text → Option Text) (workspace_id : Text) where
  abbrev pub host_of : Text → Text
  host_of dst = or_text (host_for dst) dst

  abbrev pub is_named : Text → Bool
  is_named dst = not (text_eq (host_of dst) dst)

  unfoldable pub session_gate : SessionMemory → Flow → ℕ → Consumer → Option (Fate × Consumer)
  unfolding accept_with_pin deny_fast
  session_gate session (sport, dst, dport) now c =
      if dport == 0
      then none
      else covered (allow_ttl session workspace_id (host_of dst) dport now)
          (deny_ttl session workspace_id (host_of dst) dport now) (sport, dst, dport) now
          (is_named dst) c

  -- `pkt.retain()`, the in-flight mark and the `decide` task
  unfoldable pub retain : ℕ → Flow → Consumer → Fate × Consumer
  retain packet (sport, dst, dport) c = (
    retained,
    record c {
      inflight = (sport, dst, dport) ∷ c.inflight;
      tasks = (record { packet = packet; flow = (sport, dst, dport) }) ∷ c.tasks;
    },
  )

  abbrev pub or_retain : Option (Fate × Consumer) → Fate × Consumer → Fate × Consumer
  or_retain (some done) kept = done
  or_retain none kept = kept

  -- `route_packet` on a packet that no cached verdict decides
  unfoldable pub route_uncached : SessionMemory → ℕ → Flow → ℕ → Consumer → Fate × Consumer
  unfolding session_gate retain
  route_uncached session packet flow now c =
      if any (flow_beq flow) c.inflight
      then (dropped, c)
      else or_retain (session_gate session flow now c) (retain packet flow c)

  abbrev pub cached_or : Option Cached → Flow → Consumer → Fate × Consumer → Fate × Consumer
  cached_or (some entry) flow c otherwise = apply_cached entry flow c
  cached_or none flow c otherwise = otherwise

  unfoldable pub route_flow : SessionMemory → ℕ → Flow → ℕ → Consumer → Fate × Consumer
  unfolding cached_verdict apply_cached route_uncached
  route_flow session packet flow now c =
      cached_or (cached_verdict flow now c) flow c (route_uncached session packet flow now c)

  -- `none` is an exception, which `on_packet` catches
  abbrev pub route_parsed :
      SessionMemory → ℕ → ℕ → Option (Option Parsed) → Consumer → Fate × Consumer
  route_parsed session packet now none c = (dropped, c)
  route_parsed session packet now (some none) c = (dropped, c)
  route_parsed session packet now (some (some p)) c =
      route_flow session packet (p.sport, p.dst, p.dport) now c

  unfoldable pub on_packet : SessionMemory → ℕ → Bytes → ℕ → Consumer → Fate × Consumer
  unfolding route_flow
  on_packet session packet payload now c = route_parsed session packet now (parse_packet payload) c

-- The end of a `decide` task: the packet leaves the tasks, its flow the in-flight set.
unfoldable pub finish_task : Held → Consumer → Consumer
finish_task held c = record c {
  inflight = filter (λ flow. not (flow_beq flow held.flow)) c.inflight;
  tasks = filter (λ task. not (task.packet == held.packet)) c.tasks;
}

unfoldable pub trim : Consumer → Consumer
trim c = if ltb verdict_cache_max (length c.verdicts) then record c { verdicts = [] } else c

abbrev or_once : Option ℕ → ℕ
or_once none = once_reject
or_once (some ttl) = ttl

-- `pins_raise` says whether the manager's pin raises: then the packet is dropped.
module _ (pins_raise : Bool) where
  unfoldable pub apply_allow : Flow → Option ℕ → Bool → Consumer → Fate × Consumer
  unfolding pin
  apply_allow flow none named c = (accepted, c)
  apply_allow (sport, dst, dport) (some ttl) named c =
      if pins_raise
      then (dropped, c)
      else (accepted, pin (consent_allow dst (port_or_none dport) ttl named) c)

  unfoldable pub apply_deny : Flow → Option ℕ → Bool → Consumer → Fate × Consumer
  unfolding pin
  apply_deny (sport, dst, dport) ttl named c = (
    dropped,
    if dport == 0 || pins_raise
        then c
        else pin (consent_reject dst dport (or_once ttl) sport named) c,
  )

  unfoldable pub apply_verdict : Flow → Verdict → Bool → ℕ → Consumer → Fate × Consumer
  unfolding trim cache apply_allow apply_deny
  apply_verdict flow verdict named now c =
      let entry : Cached = record {
        allows = verdict.allows;
        expire = now + verdict_cache_ttl;
        named = named;
      } in
      let stored = cache flow entry (trim c) in
      if verdict.allows
      then apply_allow flow verdict.pin_ttl named stored
      else apply_deny flow verdict.pin_ttl named stored

  -- `decide`, from its verdict to its end. The first argument is the `named` flag, which the task
  -- reads off the manager's naming when it starts.
  unfoldable pub decide : Bool → Held → Verdict → ℕ → Consumer → Fate × Consumer
  unfolding apply_verdict finish_task
  decide named held verdict now c =
      let (fate, done) = apply_verdict held.flow verdict named now c in
      (fate, finish_task held done)

-- `decide` on `CancelledError`: the packet drops, and its flow stays in flight.
unfoldable pub cancel : Held → Consumer → Fate × Consumer
cancel held c =
    (dropped, record c { tasks = filter (λ task. not (task.packet == held.packet)) c.tasks })
