-- ===== src/Net/Packet/Encode.antt =====
-- The packet parser (src/msks/msks/net/nfq.py) on a packet that is built field by field.
use msks.Prelude.{
  ℕ, ◌+◌, ◌*◌, ◌/◌, ◌%◌, ◌≤◌, true, false, some, [], ◌∷◌, ◌++◌, length, length-append, drop, ltb,
  ◌≡◌, ap, not, ◌||◌, ◌∙◌, arith,
}
use msks.Net.Bytes.{Bytes, dotted, word, drop-append, drop-add}
use msks.Net.Packet.{
  has_ports, ethernet_offset, ipv4_header, ipv4_offsets, parsed_at, l4_ports, parse_packet,
}

-- The four bytes of an address.
pub record Address : Type 0 where
  pub a : ℕ
  pub b : ℕ
  pub c : ℕ
  pub d : ℕ

abbrev pub bytes_of : Address → Bytes
bytes_of x = x.a ∷ x.b ∷ x.c ∷ x.d ∷ []

-- An IPv4 packet that carries two ports. `options` are the bytes after the fixed header.
pub record Packet : Type 0 where
  pub service : ℕ
  pub size : ℕ
  pub ident : ℕ
  pub fragment : ℕ
  pub ttl : ℕ
  pub proto : ℕ
  pub checksum : ℕ
  pub src : Address
  pub dst : Address
  pub options : Bytes
  pub sport : ℕ
  pub dport : ℕ
  pub rest : Bytes

abbrev pub address : Address → Bytes → Bytes
address x bytes = x.a ∷ x.b ∷ x.c ∷ x.d ∷ bytes

abbrev pub ports : Packet → Bytes
ports k = word k.sport (word k.dport k.rest)

-- `words` is the number of 32-bit words of the options.
abbrev pub encode : ℕ → Packet → Bytes
encode words k =
    (69 + words)
    ∷ k.service
    ∷ word k.size (
        word k.ident (
          word k.fragment (
            k.ttl
            ∷ k.proto
            ∷ word k.checksum (address k.src (address k.dst (k.options ++ ports k))))))

drop_options :
    (words : ℕ) (k : Packet)
    → length k.options ≡ words * 4
    → drop (20 + words * 4) (encode words k) ≡ ports k
drop_options words k h =
    drop-add 20 (words * 4) (encode words k) ∙ drop-append (words * 4) k.options (ports k) h

ipv4_offsets-encode :
    (words : ℕ) (k : Packet)
    → words ≤ 10
    → length k.options ≡ words * 4
    → ipv4_offsets (encode words k) ≡ some (some (0, 20 + words * 4))
unfolding ipv4_offsets ethernet_offset ipv4_header
ipv4_offsets-encode words k small h = ground (arith, length-append k.options (ports k))

drop_sport :
    (words : ℕ) (k : Packet)
    → length k.options ≡ words * 4
    → drop (20 + words * 4 + 2) (encode words k) ≡ word k.dport k.rest
drop_sport words k h =
    drop-add (20 + words * 4) 2 (encode words k) ∙ ap (drop 2) (drop_options words k h)

ports_inside :
    (words : ℕ) (k : Packet)
    → length k.options ≡ words * 4
    → has_ports k.proto ≡ true
    → (not (has_ports k.proto) || ltb (length (encode words k)) (20 + words * 4 + 4)) ≡ false
ports_inside words k h proto = ground (arith, length-append k.options (ports k))

zero_add : (n : ℕ) → 0 + n ≡ n
zero_add n = omega arith

big_endian : (n : ℕ) → (0 * 256 + n / 256) * 256 + n % 256 ≡ n
big_endian n = omega arith

-- the pair of ports, whatever stands behind them
l4_ports-encode :
    (words : ℕ) (k : Packet)
    → length k.options ≡ words * 4
    → has_ports k.proto ≡ true
    → l4_ports (encode words k) (0 + (20 + words * 4)) k.proto ≡ (k.sport, k.dport)
unfolding l4_ports
l4_ports-encode words k h proto = rw (
  zero_add (20 + words * 4),
  ports_inside words k h proto,
  drop_options words k h,
  drop_sport words k h,
  big_endian k.sport,
  big_endian k.dport,
)

-- A well-formed IPv4 packet of TCP or UDP, with up to ten words of options and any payload, parses
-- to its own addresses, ports and protocol.
pub parse_packet-encode :
    (words : ℕ) (k : Packet)
    → words ≤ 10
    → length k.options ≡ words * 4
    → has_ports k.proto ≡ true
    → parse_packet (encode words k)
      ≡ some (
          some (record {
            src = dotted (bytes_of k.src);
            sport = k.sport;
            dst = dotted (bytes_of k.dst);
            dport = k.dport;
            proto = k.proto;
          }))
unfolding parse_packet parsed_at
parse_packet-encode words k small h proto =
    rw (ipv4_offsets-encode words k small h, l4_ports-encode words k h proto)
