-- ===== src/Net/Packet/Offsets.antt =====
-- The reads of the packet parser (src/msks/msks/net/nfq.py).
use msks.Prelude.{
  ℕ, zero, suc, ◌+◌, true, false, not, none, some, [], ◌∷◌, length, get_elem?, ltb, is_none, ◌≡◌,
  ◌≤◌, ◌⊎◌, arith, Bool-cases, Option-cases, inl, inr,
}
use msks.Net.Bytes.{Bytes}
use msks.Net.Packet.{ethernet_offset, ipv4_header, ipv4_offsets, parsed_at, parse_packet, ihl_of}

pub get_elem?-in : (p : Bytes) (i : ℕ) → is_none (get_elem? p i) ≡ not (ltb i (length p))
get_elem?-in [] i = ground arith
get_elem?-in (b ∷ p) zero = ground arith
get_elem?-in (b ∷ p) (suc i) = ground (arith, get_elem?-in p i)

-- The offset is 0 or 14, and the payload is longer than the offset then.
pub ethernet_offset_lem :
    (p : Bytes)
    → (ethernet_offset p ≡ some 0) ⊎ ((ethernet_offset p ≡ some 14) × (ltb 14 (length p) ≡ true))
unfolding ethernet_offset
ethernet_offset_lem p = elim (Bool-cases (ltb 14 (length p))) [
  | inr short ↦ inl (ground arith)
  | inl long ↦ elim (Option-cases (get_elem? p 0)) [
    | inl e ↦ ground (arith, get_elem?-in p 0)
    | inr (b, e) ↦ elim (Option-cases (get_elem? p 14)) [
      | inl e' ↦ ground (arith, get_elem?-in p 14)
      | inr (c, e') ↦ ground arith
    ]
  ]
]

-- A good header gives its first byte and its length, which lies in the payload.
pub ipv4_header_lem :
    (p : Bytes) (off : ℕ)
    → (ipv4_header p off ≡ some false)
      ⊎ ((ipv4_header p off ≡ some true)
          × ((b : ℕ) × (get_elem? p off ≡ some b) × (off + 20 ≤ length p)))
unfolding ipv4_header
ipv4_header_lem p off = elim (Bool-cases (ltb (length p) (off + 20))) [
  | inl short ↦ inl (ground arith)
  | inr long ↦ elim (Option-cases (get_elem? p off)) [
    | inl e ↦ ground (arith, get_elem?-in p off)
    | inr (b, e) ↦ ground arith
  ]
]

offsets_at :
    (p : Bytes) (off : ℕ)
    → ethernet_offset p ≡ some off
    → (ipv4_offsets p ≡ some none)
      ⊎ ((o : ℕ) × (ihl : ℕ) × (ipv4_offsets p ≡ some (some (o, ihl))) × (o + 20 ≤ length p))
unfolding ipv4_offsets
offsets_at p off e = elim (ipv4_header_lem p off) [
  | inl bad ↦ inl (rw (e, bad))
  | inr (good, (b, read, inside)) ↦ inr (off, ihl_of b, rw (e, good, read), inside)
]

-- The offset and the length of the header, where there is one; its 20 bytes lie in the payload.
pub ipv4_offsets_lem :
    (p : Bytes)
    → (ipv4_offsets p ≡ some none)
      ⊎ ((off : ℕ) × (ihl : ℕ) × (ipv4_offsets p ≡ some (some (off, ihl))) × (off + 20 ≤ length p))
ipv4_offsets_lem p = elim (ethernet_offset_lem p) [
  | inl e ↦ offsets_at p 0 e
  | inr (e, long) ↦ offsets_at p 14 e
]

-- `parse_packet` raises no `IndexError`, whatever the bytes of the payload.
pub parse_packet_total : (p : Bytes) → is_none (parse_packet p) ≡ false
unfolding parse_packet parsed_at
parse_packet_total p = elim (ipv4_offsets_lem p) [
  | inl e ↦ rw e
  | inr (off, ihl, e, inside) ↦ rw e (elim (Option-cases (get_elem? p (off + 9))) [
    | inl missing ↦ ground (arith, get_elem?-in p (off + 9))
    | inr (proto, read) ↦ rw read
  ])
]
