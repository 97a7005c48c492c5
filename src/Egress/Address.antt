-- ===== src/Egress/Address.antt =====
-- The part of Python's standard `ipaddress` module that `spec/egress.py` and `net/alloc.py` call:
-- IPv4 addresses as numbers below 2^32, networks as an address and a prefix length.
use msks.Prelude.{
  ℕ, zero, suc, ◌+◌, ◌-◌, ◌*◌, ◌/◌, ◌^◌, Bool, true, not, ◌&&◌, ◌||◌, Option, none, some, List, [],
  ◌∷◌, Text, text_eq, split, all_digits, int_of, codes, length, leb, ltb, ◌==◌, if◌then◌else◌, ◌≡◌,
  refl,
}

pub record Ipv4Network : Type 0 where
  pub address : ℕ
  pub prefixlen : ℕ

-- `_parse_octet`: one to three ASCII digits, no leading zero, at most 255
unfoldable pub parse_octet : Text → Option ℕ
parse_octet [] = none
parse_octet (c ∷ t) =
    if not (all_digits (c ∷ t)) || ltb 3 (length (c ∷ t))
    then none
    else if c == b'0' && not (text_eq (c ∷ t) (b'0' ∷ []))
    then none
    else if ltb 255 (int_of (c ∷ t))
    then none
    else some (int_of (c ∷ t))

abbrev join_octets : Option ℕ → Option ℕ → Option ℕ → Option ℕ → Option ℕ
join_octets (some a) (some b) (some c) (some d) = some (((a * 256 + b) * 256 + c) * 256 + d)
join_octets _ _ _ _ = none

abbrev of_parts : List Text → Option ℕ
of_parts (a ∷ b ∷ c ∷ d ∷ []) =
    join_octets (parse_octet a) (parse_octet b) (parse_octet c) (parse_octet d)
of_parts _ = none

-- `int(IPv4Address(text))`, `none` for the `AddressValueError`
unfoldable pub parse_ipv4 : Text → Option ℕ
unfolding parse_octet
parse_ipv4 t = of_parts (split b'.' t)

-- the least number of leading one bits, up to `k`, that makes the netmask `mask`
prefix_below : ℕ → ℕ → Option ℕ
prefix_below zero mask = if mask == 0 then some 0 else none
prefix_below (suc k) mask =
    if mask == 2 ^ 32 - 2 ^ (31 - k) then some (suc k) else prefix_below k mask

-- `_prefix_from_ip_string`: a dotted netmask, or else a dotted hostmask
prefix_from_ip : Option ℕ → Option ℕ
unfolding prefix_below
prefix_from_ip none = none
prefix_from_ip (some mask) = elim (prefix_below 32 mask) [
  | some p ↦ some p
  | none ↦ prefix_below 32 (2 ^ 32 - 1 - mask)
]

-- `_make_netmask`
unfoldable pub parse_prefix : Text → Option ℕ
unfolding prefix_from_ip parse_ipv4
parse_prefix t =
    let plain = not (text_eq t []) && all_digits t && leb (int_of t) 32 in
    if plain then some (int_of t) else prefix_from_ip (parse_ipv4 t)

-- the address with the bits below the prefix cleared
unfoldable pub mask_host : ℕ → ℕ → ℕ
mask_host address prefixlen = address / 2 ^ (32 - prefixlen) * 2 ^ (32 - prefixlen)

-- Whether an address has bits set below the prefix.
unfoldable pub has_host_bits : ℕ → ℕ → Bool
unfolding mask_host
has_host_bits address prefixlen = not (mask_host address prefixlen == address)

abbrev pub network_of : Bool → Option ℕ → Option ℕ → Option Ipv4Network
network_of strict none p = none
network_of strict (some a) none = none
network_of strict (some a) (some p) =
    if strict && has_host_bits a p
    then none
    else some (record { address = mask_host a p; prefixlen = p })

abbrev pub network_parts : Bool → List Text → Option Ipv4Network
network_parts strict (a ∷ []) = network_of strict (parse_ipv4 a) (some 32)
network_parts strict (a ∷ p ∷ []) = network_of strict (parse_ipv4 a) (parse_prefix p)
network_parts strict _ = none

-- `IPv4Network(text, strict)`, `none` for the `ValueError`
unfoldable pub parse_network : Bool → Text → Option Ipv4Network
parse_network strict t = network_parts strict (split b'/' t)

-- `address in network`
unfoldable pub in_network : ℕ → Ipv4Network → Bool
unfolding mask_host
in_network address net = mask_host address net.prefixlen == net.address

loopback : parse_ipv4 (codes "127.0.0.1") ≡ some 2130706433
unfolding parse_ipv4 split text_eq all_digits int_of
loopback = refl

leading_zero : parse_ipv4 (codes "10.0.0.01") ≡ none
unfolding parse_ipv4 split text_eq all_digits int_of
leading_zero = refl

class_a :
    parse_network true (codes "10.0.0.0/8") ≡ some (record { address = 167772160; prefixlen = 8 })
unfolding parse_network parse_ipv4 parse_prefix split text_eq all_digits int_of has_host_bits
class_a = refl

dotted_mask : parse_prefix (codes "255.255.0.0") ≡ some 16
unfolding parse_prefix split text_eq all_digits int_of
dotted_mask = refl

dotted_hostmask : parse_prefix (codes "0.0.255.255") ≡ some 16
unfolding parse_prefix split text_eq all_digits int_of
dotted_hostmask = refl
