-- ===== src/Lib.antt =====
-- Verification of msks (src/msks/msks), the daemon that runs workspaces in virtual machines and gates
-- their egress: the allowlist of a workspace, the consent rows, the engine that holds a packet until
-- a person decides, and the code of the network that calls it.
--
-- How the parts interact. An allowlist is parsed into specs (spec/egress.py), which decide the names
-- and addresses that pass with no question. Another packet reaches `ConsentEngine.hold`
-- (consent/coordinator.py) with its workspace, host and port. In `interactive` mode the engine
-- writes a pending row (model/egress_consent.py), keeps a future and a timeout task for it, and sends
-- a frame to the connected deciders (consent/deciders.py). The future is answered by `resolve`, by
-- the timeout or by a teardown; a lasting verdict stays in the session memory, which the DNS
-- resolver and the packet gate ask for the remaining time of a destination. A query of the guest
-- passes the resolver gate (net/dns.py), which decides whether the name resolves and which of its
-- addresses are pinned; the naming memory that the answers feed names the packets of the gate. The
-- guest gets its address from the DHCP server (net/dhcp.py). A web flow that the proxy
-- takes over asks the web gate (interceptor/egress.py), which reads the same rows, session memory and
-- allowlist; the secrets that the proxy puts into requests come from the cache of unlocked plaintexts
-- (secretcache.py). Apart from the network, a workspace mounts
-- host paths (spec/mounts.py, hostshares.py): the rules that a path and a set of mounts pass, and their translation to
-- the daemon's own paths.
--
-- The files, with the code of each (paths below src/msks/msks):
--   Prelude, Prelude/Tests, Lists, Texts, Suffix, Splits: Boolean tests on numbers, lists, texts; a Python str
--     is the list of its code points. Prelude/Dict is a Python dict with its insertion order.
--   Egress/Address: the part of the standard library's ipaddress that spec/egress.py calls.
--   Egress/Grammar: is_port_digits .. parse_allowlist of spec/egress.py; Egress/Policy: HostSpec,
--     IpSpec, EgressPolicy, host_matches, ports_for, covers, allow_all_cidrs; Egress/Lifecycle: the
--     decisions, durations and pins.
--   Egress/Grammar/Allowlist, Egress/Policy/Matching and HostBits: their theorems.
--   Consent/Row, Rows, Moves: model/egress_consent.py: the row, the reads, the writes. A table is the
--     list of its rows in insertion order; a write is a function of the table. Consent/Moves/Steps,
--     Dedup and Unique: their step relation and the uniqueness of ids and dedup keys; Moves/Lifecycle:
--     what an update does to a row; Moves/Recorded: what a policy record and a decision leave in the table.
--   Consent/Session: SessionMemory of consent/coordinator.py, with Session/Cover, Store, Times and
--     Ports for its theorems. Consent/Deciders: DeciderRegistry of consent/deciders.py.
--   Consent/Verdict: the verdict dicts, grouped, decided_ttl, built_verdict, pin_for_row.
--   Consent/Engine/State: the state of ConsentEngine and its actions; Gate: hold .. register_hold;
--     Frames: rules_frame, frame_for_row, broadcast_rules, snapshot; Settle: resolve, timeout_hold,
--     fail_close, fail_close_workspace, on_workspace_stop, stop; Revoke: revoke, start, forever_pins.
--   Consent/Engine/Closed, Held, Adds, Committed, Once, Teardown and History: the theorems on the gate,
--     on a request that waits, on what `hold` may change, on the answer to a decision, on the end of
--     one request, on teardowns, and on the calls in any order.
--   Mounts: the paths of spec/mounts.py, their refusals and the translation of host paths; Mounts/Unit:
--     the unit name and the shell quoting; Mounts/Spec: one entry, the rules of a set, a share root.
--     Mounts/Clean, Clear, Canonical, Translate, Escape, Quote and Spec/Disjoint: the theorems.
--   Interceptor: the web-egress gate of interceptor/egress.py, with Interceptor/Listed and
--     Closed for its theorem.
--   Interceptor/Swap: the swap of a secret for its sentinel, of interceptor/engine.py; Swap/Replaced
--     and Spent: what it replaces, and where a secret goes. A request's fields are read before and written after; hostport of mitmproxy, the row's
--     liveness and the store are parameters.
--   Interceptor/Hooks: the request hook of interceptor/engine.py on one connection, with the gate's answer
--     as part of a request; Hooks/Kept: which answer stands. The weak tables of the hook are one
--     connection's marker and its answers.
--   Secretcache: PlaintextCache of secretcache.py, with Secretcache/Window for its theorems.
--   Hostshares: hostshares.py, with Hostshares/Mounted, Gates and Escapes for its theorems.
--   Net/Bytes: big-endian words, slices and dotted addresses, shared by the codecs.
--   Net/Dnsmsg: net/dnsmsg.py. Dnsmsg/Total: the name decoder ends; Names, Queries, Addresses and
--     Replies: its round trips, from a name to the replies that the forwarder builds.
--   Net/Resolver: QueryDecision and ResolverGate of net/dns.py, with Resolver/Classify and Pins for
--     its theorems. Net/Forwarder: the naming memory of DnsForwarder of net/dns.py; Forwarder/Cached:
--     cache_get and cache_put; Forwarder/Relay: _relay, answer_probe_host, relay_gated and what
--     gated_exchange does with an answer; Forwarder/Pairings and Shared: theorems on the memory.
--   Net/Dhcp: net/dhcp.py, with Dhcp/Walk, Options, Layout and Offers for its theorems.
--   Net/Packet: parse_packet of net/nfq.py; Packet/Offsets and Packet/Encode: its reads and its round
--     trip. Net/Flow: FlowConsumer of net/nfq.py, with Flow/Inflight, Reach and Passes for its theorems.
--     Net/Slices: net/alloc.py and the claims of net/manager.py (free_slice, _claim_live, claim_slice,
--     queue_for), with Slices/Layout and Claims for its theorems.
--   Events: EventHub, deliver and close_all of events.py, with Events/Newest for the theorems.
--   Tests: runs of the code on concrete inputs.
--
-- Conventions. An exception of a call of the model is injected by `raises`, and an action that
-- raises keeps the writes that stand before the raise. A method is one step from its call to its
-- return: an `await` in the middle of a method, and the cancellation of a method there, are not
-- modelled. Times are natural numbers of milliseconds (`second` = 1000): the clock of the rows and
-- the clock of the session memory are both the argument `now` of a call. The ids of new rows, which
-- are random in the code, are arguments. `audit` stands for the keyed hash of a row
-- (integrity_hmac), a parameter that no property looks into. The regular expression for a domain is
-- a scanner on the text with the same classes. Loops go over lists, or over a range of numbers; two
-- run on fuel, and a lemma or a property shows for each that it never runs out. The name decoder of
-- net/dnsmsg.py has 300 rounds: each either adds to the labels, which stay within 254 bytes, or to
-- the jumps, which stay within 16. The walk over DHCP options has one round for each byte and a last
-- one. In the packet gate the manager's naming of addresses is the parameter `host_for`, the pins
-- that it asks of the manager are recorded in order, and whether a pin raises is an argument.
-- SHA-256 is a parameter of the slices and of the mounts.
--
-- The answer of a hold is a parameter of the web gate; the resolution of symbolic links and the test
-- for a directory are parameters of the host shares. The DNS and DHCP codecs read bytes as natural
-- numbers; where a byte's bound matters a theorem says so. An address is text with four decimal
-- parts. A call of the resolver gate reads one snapshot of the rows and of the session memory.
--
-- Not modelled: the sockets and the upstream of the DNS forwarder; the database, its sessions and
-- errors other than through `raises`; the asyncio event loop; the log; the binding of the kernel's
-- queue; the canonical form that the keyed hash covers. The other components of the program (the
-- daemon's API, virtual machines, images, the proxy's other hooks, the encryption of secrets, the
-- client) have no file.
pub mod Consent
pub mod Egress
pub mod Events
pub mod Hostshares
pub mod Interceptor
pub mod Mounts
pub mod Net
pub mod Prelude
pub mod Secretcache
pub mod Tests
