-- ===== src/Net/Forwarder/Relay.antt =====
-- The relay of `DnsForwarder` (src/msks/msks/net/dns.py): what becomes of one query of the guest.
use msks.Net.Resolver.Classify.{decides, does_resolve, is_blocked, is_open, classify_lem}
use msks.Prelude.{
  ℕ, false, not, ◌&&◌, Option, none, some, List, [], ◌∷◌, Text, ◌≡◌, refl, ◌∙◌, inl, inr, arith,
  ◌==◌, if◌then◌else◌, Bool-cases, text_eq, codes, text_eq_refl,
}
use msks.Net.Bytes.{Bytes, dotted}
use msks.Net.Packet.Encode.{Address, bytes_of}
use msks.Net.Dnsmsg.{
  Question, parse_query, nxdomain_for, a_answer_for, rewrite_id, parse_a_records, is_empty,
  join_labels,
}
use msks.Net.Dnsmsg.Names.{IsName}
use msks.Net.Dnsmsg.Queries.{
  Query, encode_query, question_of, parse_query-encode, is_empty-join_labels,
}
use msks.Net.Dnsmsg.Addresses.{AreBytes}
use msks.Net.Dnsmsg.Replies.{replies-Read}
use msks.Consent.Rows.{Table}
use msks.Net.Resolver.{
  Gate, QueryDecision, Action, learns, records, nxdomain, Pin, learned, classify,
}
use msks.Net.Forwarder.{Forwarder, remember}
use msks.Net.Forwarder.Cached.{cache_get, cache_put}

abbrev pub probe_host : Text
probe_host = codes "secretprobe.msks"

-- What the relay does with a query: it drops it, answers it itself, or asks the upstream under a decision.
pub data Outcome : Type 0 where
  dropped : Outcome
  answers : Bytes → Outcome
  exchanges : Question → QueryDecision → Outcome

-- What a query can change.
pub record State : Type 0 where
  pub forwarder : Forwarder
  pub table : Table

abbrev pub probe_answer : Text → Bytes → Option Question → Option Bytes
probe_answer tap query none = none
probe_answer tap query (some q) =
    if not (text_eq q.name probe_host)
    then none
    else if q.qtype == 1
    then some (a_answer_for query tap 60)
    else some (nxdomain_for query)

-- `answer_probe_host`: the local answer, `none` for every other name. `tap` is the bound address.
unfoldable pub answer_probe_host : Text → Bytes → Option Bytes
unfolding parse_query
answer_probe_host tap query = probe_answer tap query (parse_query query)

abbrev pub cached : Option Bytes → Question → QueryDecision → Outcome
cached none q d = exchanges q d
cached (some answer) q d = answers (rewrite_id answer q.id)

-- the tail of `relay_gated` behind the gate's decision; `none` is the gate's exception
abbrev pub decided :
    Option QueryDecision → ℕ → Bytes → Question → Table → Forwarder → Outcome × State
decided none now query q table f = (dropped, record { forwarder = f; table = table })
decided (some d) now query q table f = elim d.action [
  | nxdomain ↦ (answers (nxdomain_for query), record { forwarder = f; table = table })
  | learns ↦ (
    cached (cache_get now q f).0 q d,
    record { forwarder = (cache_get now q f).1; table = table },
  )
  | records ↦ (
    cached (cache_get now q f).0 q d,
    record { forwarder = (cache_get now q f).1; table = table },
  )
]

abbrev pub gated : Option Question → Gate → ℕ → Bytes → State → Outcome × State
gated none g now query s = (dropped, s)
gated (some q) g now query s =
    if is_empty q.name
    then (dropped, s)
    else decided (classify g now q.name s.table).0 now query q (classify g now q.name s.table).1
        s.forwarder

unfoldable pub relay_gated : Gate → ℕ → Bytes → State → Outcome × State
unfolding classify
relay_gated g now query s = gated (parse_query query) g now query s

abbrev pub local_or : Option Bytes → Outcome × State → State → Outcome × State
local_or none rest s = rest
local_or (some answer) rest s = (answers answer, s)

-- `_relay` of a forwarder that has a gate
unfoldable pub relay : Text → Gate → ℕ → Bytes → State → Outcome × State
unfolding answer_probe_host relay_gated
relay tap g now query s = local_or (answer_probe_host tap query) (relay_gated g now query s) s

-- `gated_exchange` behind the upstream's answer: the addresses that became shared, the pins of the
-- decision, and the memory; the answer goes to the guest.
unfoldable pub answered :
    ℕ → Question → QueryDecision → Bytes → Forwarder → List Text × List Pin × Forwarder
unfolding remember learned cache_put
answered now q d answer f =
    let found = parse_a_records answer in
    let (fresh, f') = remember now q.name found f in
    (fresh, learned (some d) found, cache_put now q answer found f')

-- A query that is dropped, or gets a reply without addresses.
abbrev pub IsRefused : Outcome → Type 0
IsRefused dropped = Unit
IsRefused (answers answer) = parse_a_records answer ≡ []
IsRefused (exchanges q d) = ⊥

Action-cases : (a : Action) → does_resolve a ≡ false → a ≡ nxdomain
Action-cases nxdomain h = refl
Action-cases learns h = ground (arith, h)
Action-cases records h = ground (arith, h)

decided-IsRefused :
    (o : Option QueryDecision) (now : ℕ) (query : Bytes) (q : Question) (table : Table)
    (f : Forwarder)
    → decides does_resolve o ≡ false
    → parse_a_records (nxdomain_for query) ≡ []
    → IsRefused (decided o now query q table f).0
      × ((decided o now query q table f).1.forwarder ≡ f)
decided-IsRefused none now query q table f h reply = (tt, refl)
decided-IsRefused (some d) now query q table f h reply = rw (Action-cases d.action h) (reply, refl)

abbrev zero_address : Address
zero_address = record { a = 0; b = 0; c = 0; d = 0 }

nxdomain_for-empty :
    (k : Query) → IsName k.labels → parse_a_records (nxdomain_for (encode_query k)) ≡ []
nxdomain_for-empty k name =
    (replies-Read k zero_address 0 name
      (omega arith, (omega arith, (omega arith, (omega arith, tt))))).1

-- A query of one question, under a name of whole labels that is not the probe's, for which the gate does not
-- let the name resolve, is dropped or gets a reply without addresses, and reads and changes
-- neither the cache nor the naming memory, so that an answer cached before never overrides a deny.
pub relay-IsRefused :
    (tap : Text) (g : Gate) (now : ℕ) (k : Query) (s : State)
    → IsName k.labels
    → text_eq (join_labels k.labels) probe_host ≡ false
    → (not (is_blocked g now (join_labels k.labels) s.table)
        && is_open g now (join_labels k.labels) s.table)
      ≡ false
    → IsRefused (relay tap g now (encode_query k) s).0
      × ((relay tap g now (encode_query k) s).1.forwarder ≡ s.forwarder)
unfolding relay answer_probe_host relay_gated
relay-IsRefused tap g now k s name other closed =
    rw (parse_query-encode k name, other, is_empty-join_labels k.labels name)
      (decided-IsRefused (classify g now (join_labels k.labels) s.table).0 now (encode_query k)
        (question_of k) (classify g now (join_labels k.labels) s.table).1 s.forwarder
        ((classify_lem g now (join_labels k.labels) s.table).1 ∙ closed)
        (nxdomain_for-empty k name))

-- In every state of the gate, a query of one question for the probe's name is answered at once and with no
-- change: an address query by the forwarder's own address for 60 seconds, when the address
-- is given by its four bytes, and every other type by a reply without addresses.
pub relay-probe :
    (tap : Address) (g : Gate) (now : ℕ) (k : Query) (s : State)
    → IsName k.labels
    → AreBytes (bytes_of tap)
    → join_labels k.labels ≡ probe_host
    → (answer : Bytes) × (relay (dotted (bytes_of tap)) g now (encode_query k) s
        ≡ (answers answer, s))
      × (parse_a_records answer ≡ (if k.qtype == 1 then (dotted (bytes_of tap), 60) ∷ [] else []))
unfolding relay answer_probe_host
relay-probe tap g now k s name small probe = elim (Bool-cases (k.qtype == 1)) [
  | inl address ↦ (
    a_answer_for (encode_query k) (dotted (bytes_of tap)) 60,
    rw (parse_query-encode k name, probe, text_eq_refl probe_host, address) refl,
    rw address ((replies-Read k tap 60 name small).3),
  )
  | inr other ↦ (
    nxdomain_for (encode_query k),
    rw (parse_query-encode k name, probe, text_eq_refl probe_host, other) refl,
    rw other (nxdomain_for-empty k name),
  )
]
