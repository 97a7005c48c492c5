-- ===== src/Tests/NetRuns.antt =====
-- Runs of src/msks/msks/net on concrete packets.
use msks.Prelude.{
  ℕ, true, false, any, text_eq, Option, none, some, [], ◌∷◌, Text, codes, ◌≡◌, refl, arith,
}
use msks.Prelude.Dict.{get, text_key}
use msks.Consent.Session.{SessionMemory, allow_ttl, deny_ttl}
use msks.Consent.Session
use msks.Consent.Verdict.{denial, error}
use msks.Net.Bytes.{dotted}
use msks.Net.Packet.{parse_packet}
use msks.Net.Packet.Encode.{Packet, encode, parse_packet-encode}
use msks.Net.Flow.{Held, Consumer, dropped, retained, on_packet, route_flow, decide}
use msks.Net.Flow.Passes.{is_accepted, parsed_passes, on_packet-accepted, route_flow-decide}
use msks.Net.Flow.Reach.{empty, start, step, arrives, Reaches-IsTracked}
use msks.Net.Flow.Inflight.{IsTracked}
use msks.Egress.Address.{Ipv4Network}
use msks.Net.Slices.{slice_net, Slices, free_slice}
use msks.Net.Slices.Layout.{IsPool, Apart, In, slice_net-Apart}

abbrev syn : Packet
syn = record {
  service = 0;
  size = 44;
  ident = 7;
  fragment = 16384;
  ttl = 64;
  proto = 6;
  checksum = 0;
  src = record { a = 10; b = 0; c = 0; d = 5 };
  dst = record { a = 192; b = 168; c = 1; d = 20 };
  options = 1 ∷ 1 ∷ 1 ∷ 0 ∷ [];
  sport = 40000;
  dport = 443;
  rest = 0 ∷ [];
}

parse_packet-encode_example :
    parse_packet (encode 1 syn)
    ≡ some (
        some (record {
          src = codes "10.0.0.5";
          sport = 40000;
          dst = codes "192.168.1.20";
          dport = 443;
          proto = 6;
        }))
unfolding dotted
parse_packet-encode_example = parse_packet-encode 1 syn (omega arith) refl refl

abbrev memory : SessionMemory
memory = record {
  allows = (codes "ws", ((codes "example.com", some 443), 9000) ∷ []) ∷ [];
  denies = [];
}

abbrev names : Text → Option Text
names dst = some (codes "example.com")

-- the address has a name that the session memory allows
on_packet-accepted_example :
    is_accepted (on_packet names (codes "ws") memory 1 (encode 1 syn) 5000 empty).0
    ≡ parsed_passes names (codes "ws") memory 5000 (parse_packet (encode 1 syn)) empty
on_packet-accepted_example =
    on_packet-accepted names (codes "ws") memory 1 5000 (encode 1 syn) empty

passes : is_accepted (on_packet names (codes "ws") memory 1 (encode 1 syn) 5000 empty).0 ≡ true
unfolding on_packet parse_packet get any allow_ttl deny_ttl msks.Consent.Session.matches text_eq
passes = refl

abbrev nameless : Text → Option Text
nameless dst = none

-- no verdict is known for the address: the packet is held
waits : (on_packet nameless (codes "ws") memory 1 (encode 1 syn) 5000 empty).0 ≡ retained
unfolding on_packet parse_packet get any allow_ttl deny_ttl msks.Consent.Session.matches text_eq
waits = refl

abbrev task : Held
task = record { packet = 1; flow = (40000, codes "192.168.1.20", 443) }

-- The task's verdict, then a packet that is not read, and the packet of the task again.
abbrev answered : Consumer
answered =
    (decide false false task (denial error) 5500
      (on_packet nameless (codes "ws") memory 1 (encode 1 syn) 5000 empty).1).1

route_flow-decide_example :
    (route_flow nameless
      (codes "ws")
      memory
      2
      task.flow
      6000
      (on_packet nameless (codes "ws") memory 3 [] 5600 answered).1).0
    ≡ dropped
unfolding on_packet parse_packet
route_flow-decide_example =
    route_flow-decide nameless (codes "ws") memory false false task (denial error) 5500 6000 2
      (on_packet nameless (codes "ws") memory 1 (encode 1 syn) 5000 empty).1
      (on_packet nameless (codes "ws") memory 3 [] 5600 answered).1 (omega arith) refl

Reaches-IsTracked_example :
    IsTracked (on_packet nameless (codes "ws") memory 1 (encode 1 syn) 5000 empty).1
unfolding any
Reaches-IsTracked_example =
    Reaches-IsTracked {host_for = nameless} {w = codes "ws"}
      (on_packet nameless (codes "ws") memory 1 (encode 1 syn) 5000 empty).1
      (step start (arrives memory 1 (encode 1 syn) 5000 empty refl))

-- 10.0.0.0/28 has four slices.
abbrev pool : Ipv4Network
pool = record { address = 167772160; prefixlen = 28 }

pool-IsPool : IsPool pool 4
pool-IsPool = record { room = refl; aligned = refl; inside = omega arith }

abbrev first_word : Text → ℕ
first_word w = 6

abbrev busy : Slices
busy = record { used = 2 ∷ 3 ∷ []; recorded = [] }

slice_net-Apart_example :
    (m : Ipv4Network) × (n : Ipv4Network) × (slice_net pool 1 ≡ some m)
    × (slice_net pool 3 ≡ some n)
    × Apart m n
    × In m pool
    × In n pool
slice_net-Apart_example =
    slice_net-Apart pool 4 1 3 pool-IsPool (omega arith) (omega arith) (omega arith)

-- the walk starts at 2, passes the used slices 2 and 3, and ends at 0
walks : (free_slice first_word pool (codes "ws") busy).0 ≡ some 0
unfolding free_slice any
walks = refl
