-- ===== src/Net/Packet.antt =====
-- `parse_packet` of src/msks/msks/net/nfq.py: the connection tuple of a queued packet. A payload is the
-- list of its bytes; `none` as a result of an indexing is Python's `IndexError`.
use msks.Prelude.{
  ℕ, ◌+◌, ◌*◌, ◌/◌, ◌%◌, Bool, false, not, ◌&&◌, ◌||◌, Option, none, some, Text, length, get_elem?,
  ltb, leb, ◌==◌, if◌then◌else◌,
}
use msks.Net.Bytes.{Bytes, dotted, slice, from_bytes}
pub mod Offsets
pub mod Encode

-- `(src_ip, src_port, dst_ip, dst_port, proto)`
pub record Parsed : Type 0 where
  pub src : Text
  pub sport : ℕ
  pub dst : Text
  pub dport : ℕ
  pub proto : ℕ

abbrev pub bind {ℓ} : {A B : Type ℓ} → Option A → (A → Option B) → Option B
bind none f = none
bind (some a) f = f a

-- the version nibble of a byte that is read
abbrev pub nibble_is_4 : Option ℕ → Option Bool
nibble_is_4 byte = bind byte (λ b. some (b / 16 == 4))

-- `ethernet_offset`
unfoldable pub ethernet_offset : Bytes → Option ℕ
ethernet_offset payload =
    if not (ltb 14 (length payload))
    then some 0
    else bind (nibble_is_4 (get_elem? payload 0)) (λ first.
      if first
      then some 0
      else bind (nibble_is_4 (get_elem? payload 14)) (λ inner. some (if inner then 14 else 0)))

-- `(payload[off] & 0x0F) * 4`
abbrev pub ihl_of : ℕ → ℕ
ihl_of byte = byte % 16 * 4

-- `ipv4_header`
unfoldable pub ipv4_header : Bytes → ℕ → Option Bool
ipv4_header payload off =
    if ltb (length payload) (off + 20)
    then some false
    else bind (get_elem? payload off) (λ byte.
      some (byte / 16 == 4 && (leb 20 (ihl_of byte) && leb (off + ihl_of byte) (length payload))))

-- `ipv4_offsets`: the inner option is the `None` of the code.
unfoldable pub ipv4_offsets : Bytes → Option (Option (ℕ × ℕ))
unfolding ethernet_offset ipv4_header
ipv4_offsets payload = bind (ethernet_offset payload) (λ off.
    bind (ipv4_header payload off) (λ good.
      if not good
      then some none
      else bind (get_elem? payload off) (λ byte. some (some (off, ihl_of byte)))))

abbrev pub has_ports : ℕ → Bool
has_ports proto = proto == 6 || proto == 17

unfoldable pub l4_ports : Bytes → ℕ → ℕ → ℕ × ℕ
l4_ports payload l4 proto =
    if not (has_ports proto) || ltb (length payload) (l4 + 4)
    then (0, 0)
    else (from_bytes 0 (slice l4 2 payload), from_bytes 0 (slice (l4 + 2) 2 payload))

unfoldable pub parsed_at : Bytes → Option (ℕ × ℕ) → Option (Option Parsed)
unfolding l4_ports dotted
parsed_at payload none = some none
parsed_at payload (some (off, ihl)) = bind (get_elem? payload (off + 9)) (λ proto.
    let (sport, dport) = l4_ports payload (off + ihl) proto in
    some (
      some (record {
        src = dotted (slice (off + 12) 4 payload);
        sport = sport;
        dst = dotted (slice (off + 16) 4 payload);
        dport = dport;
        proto = proto;
      })))

unfoldable pub parse_packet : Bytes → Option (Option Parsed)
unfolding ipv4_offsets parsed_at
parse_packet payload = bind (ipv4_offsets payload) (parsed_at payload)
