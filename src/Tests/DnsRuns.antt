-- ===== src/Tests/DnsRuns.antt =====
-- Runs of src/msks/msks/net/dnsmsg.py and net/dns.py on concrete messages.
use msks.Prelude.{
  lower, join, find, codes, text_eq, any, ◌<◌, false, not, ◌&&◌, none, some, [], ◌∷◌, ◌≡◌, ◌≢◌,
  refl, arith, ltb, if◌then◌else◌, is_none, length, filter, find,
}
use msks.Prelude.Dict.{get, put, text_key}
use msks.Net.Bytes.{Bytes, dotted}
use msks.Net.Packet.Encode.{Address, bytes_of}
use msks.Egress.Policy.{add_port, interactive, static, host_specs}
use msks.Consent.Session.{allow_ports, deny_ttl}
use msks.Consent.Session
use msks.Consent.Rows.{forever_verdict_for, sort_desc}
use msks.Net.Dnsmsg.{
  decode_loop, decode_fuel, cursor_at, parse_query, parse_a_records, nxdomain_for, a_answer_for,
  join_labels, size,
}
use msks.Net.Dnsmsg.Total.{decode_loop-ends}
use msks.Net.Dnsmsg.Names.{IsName}
use msks.Net.Dnsmsg.Queries.{Query, encode_query, question_of}
use msks.Net.Dnsmsg.Addresses.{AreBytes}
use msks.Net.Dnsmsg.Replies.{nxdomain_reply, a_reply, replies-Read}
use msks.Net.Resolver.{Gate, learned, classify}
use msks.Net.Resolver.Classify.{
  decides, is_learn, does_resolve, is_blocked, is_allowed, is_open, classify_lem,
}
use msks.Net.Resolver.Pins.{All, Ends, left_on, learned-Ends}
use msks.Net.Forwarder.{Forwarder, remember, live}
use msks.Net.Forwarder.Cached.{key_of, expiry, cache_get, cache_put, cache_get-cache_put}
use msks.Net.Forwarder.Relay.{State, IsRefused, relay, relay-IsRefused}

-- A pointer to itself.
abbrev circle : Bytes
circle = 0xc0 ∷ 0 ∷ []

decode_loop-ends_example : is_none (decode_loop decode_fuel circle (cursor_at 0)) ≡ false
decode_loop-ends_example = decode_loop-ends circle 0

-- `A.b`, an address query
abbrev query : Query
query = record {
  id = 4660;
  flags = 256;
  ancount = 0;
  nscount = 0;
  arcount = 1;
  labels = (b'A' ∷ []) ∷ (b'b' ∷ []) ∷ [];
  qtype = 1;
  qclass = 1;
  rest = 0 ∷ 0 ∷ 41 ∷ [];
}

query-IsName : IsName query.labels
unfolding size
query-IsName =
    (omega arith, omega arith, (omega arith, omega arith, (omega arith, omega arith, tt)))

abbrev address : Address
address = record { a = 10; b = 1; c = 100; d = 255 }

address-AreBytes : AreBytes (bytes_of address)
address-AreBytes = (omega arith, (omega arith, (omega arith, (omega arith, tt))))

replies-Read_example :
    (parse_query (nxdomain_for (encode_query query)) ≡ some (question_of (nxdomain_reply query)))
    × (parse_a_records (nxdomain_for (encode_query query)) ≡ [])
    × (parse_query (a_answer_for (encode_query query) (dotted (bytes_of address)) 60)
        ≡ some (question_of (a_reply query address 60)))
    × (parse_a_records (a_answer_for (encode_query query) (dotted (bytes_of address)) 60)
        ≡ (dotted (bytes_of address), 60) ∷ [])
replies-Read_example = replies-Read query address 60 query-IsName address-AreBytes

-- The session allows `a.b` on port 443 for four seconds more.
abbrev gate : Gate
gate = record {
  policy = record { workspace_id = codes "ws"; mode = interactive; specs = [] };
  session = record {
    allows = (codes "ws", ((codes "a.b", some 443), 9000) ∷ []) ∷ [];
    denies = [];
  };
  raises = λ call. false;
  audit = λ row. none;
  id = codes "r1";
}

classify_lem_example :
    (decides is_learn (classify gate 5000 (codes "a.b") []).0
      ≡ (not (is_blocked gate 5000 (codes "a.b") []) && is_allowed gate 5000 (codes "a.b") []))
    × (decides does_resolve (classify gate 5000 (codes "a.b") []).0
        ≡ (not (is_blocked gate 5000 (codes "a.b") []) && is_open gate 5000 (codes "a.b") []))
classify_lem_example = classify_lem gate 5000 (codes "a.b") []

-- an answer whose time to live is an hour
learned-Ends_example :
    All
      (Ends (left_on gate 5000 (codes "a.b") []))
      (learned (classify gate 5000 (codes "a.b") []).0 ((dotted (bytes_of address), 3600) ∷ []))
unfolding host_specs any allow_ports get text_eq add_port
learned-Ends_example =
    learned-Ends gate 5000 (codes "a.b") [] ((dotted (bytes_of address), 3600) ∷ []) refl refl

-- Another name has the address.
abbrev forwarder : Forwarder
forwarder = record { cache = []; names = (codes "10.1.100.255", (codes "c.d", 8000) ∷ []) ∷ [] }

becomes_shared :
    (remember 5000 (codes "a.b") ((codes "10.1.100.255", 0) ∷ []) forwarder).0
    ≡ codes "10.1.100.255" ∷ []
unfolding remember live get put filter any text_eq
becomes_shared = refl

cache_get-cache_put_example :
    (key_of (question_of query) ≡ key_of (question_of query)
      → (cache_get 9000
          (question_of query)
          (cache_put 5000 (question_of query) circle ((codes "10.1.100.255", 0) ∷ []) forwarder)).0
        ≡ (if ltb 9000 (expiry 5000 0 []) then some circle else none))
    × (key_of (question_of query) ≢ key_of (question_of query)
        → length forwarder.cache < 512
        → (cache_get 9000 (question_of query) (
            cache_put 5000 (question_of query) circle ((codes "10.1.100.255", 0) ∷ []) forwarder)).0
          ≡ (cache_get 9000 (question_of query) forwarder).0)
cache_get-cache_put_example =
    cache_get-cache_put 5000 9000 (question_of query) (question_of query) circle
      (codes "10.1.100.255") 0 [] forwarder

abbrev static_gate : Gate
static_gate = record gate {
  policy = record { workspace_id = codes "ws"; mode = static; specs = [] };
  session = record { allows = []; denies = [] };
}

abbrev state : State
state = record { forwarder = forwarder; table = [] }

relay-IsRefused_example :
    IsRefused (relay (codes "10.0.0.1") static_gate 5000 (encode_query query) state).0
    × ((relay (codes "10.0.0.1") static_gate 5000 (encode_query query) state).1.forwarder
        ≡ forwarder)
unfolding join_labels text_eq any lower join deny_ttl msks.Consent.Session.matches get
    forever_verdict_for find sort_desc filter host_specs allow_ports
relay-IsRefused_example =
    relay-IsRefused (codes "10.0.0.1") static_gate 5000 query state query-IsName refl refl
