-- ===== src/Egress/Policy/HostBits.antt =====
-- Where the validation of a CIDR entry and the chain's reading of it part.
use msks.Prelude.{
  ℕ, ◌≤◌, Bool, true, false, Option, none, some, List, [], ◌∷◌, ◌++◌, Text, contains, split,
  if◌then◌else◌, ◌≡◌, refl, arith, Result, ok, err,
}
use msks.Egress.Address.{parse_network, parse_ipv4, parse_prefix, has_host_bits, mask_host}
use msks.Egress.Grammar.{split_port, valid_cidr_spec, port_too_big, slash, max_port}
use msks.Egress.Policy.{IpSpec, ip_spec_of, consider_ip, ip_specs}

-- A CIDR entry `addr/pre`, with its port if there is one, whose address has bits below the prefix.
pub record HasHostBits (spec : Text) : Type 0 where
  pub base : Text
  pub port : Option ℕ
  pub addr : Text
  pub pre : Text
  pub address : ℕ
  pub prefixlen : ℕ
  pub is_split : split_port spec ≡ (base, port)
  pub slashed : contains slash spec ≡ true
  pub base_slashed : contains slash base ≡ true
  pub parts : split slash base ≡ addr ∷ pre ∷ []
  pub address_parses : parse_ipv4 addr ≡ some address
  pub prefix_parses : parse_prefix pre ≡ some prefixlen
  pub host_bits : has_host_bits address prefixlen ≡ true

module _ (spec : Text) (h : HasHostBits spec) where
  network_lem :
      (strict : Bool)
      → parse_network strict h.base ≡ (
          if strict
          then none
          else some (record { address = mask_host h.address h.prefixlen; prefixlen = h.prefixlen }))
  unfolding parse_network
  network_lem true = simp (h.parts, h.address_parses, h.prefix_parses, h.host_bits)
  network_lem false = simp (h.parts, h.address_parses, h.prefix_parses)

  ip_spec_of-HasHostBits : ip_spec_of spec ≡ err h.base
  unfolding ip_spec_of
  ip_spec_of-HasHostBits = simp (h.is_split, h.base_slashed, network_lem)

-- Port absent or in range: the entry is valid.
abbrev pub InRange : Option ℕ → Type 0
InRange none = Unit
InRange (some p) = p ≤ max_port

port_ok : (port : Option ℕ) → InRange port → port_too_big port ≡ false
port_ok none r = refl
port_ok (some p) r = ground arith

valid_cidr_spec-HasHostBits :
    (spec : Text) (h : HasHostBits spec) → InRange h.port → valid_cidr_spec spec ≡ true
unfolding valid_cidr_spec
valid_cidr_spec-HasHostBits spec h r =
    simp (h.is_split, h.slashed, port_ok h.port r, network_lem spec h false)

abbrev pub Raises : Result Text (List IpSpec) → Type 0
Raises (ok specs) = ⊥
Raises (err base) = Unit

consider_ip-Raises :
    (r : Result Text (Option IpSpec)) (rest : Result Text (List IpSpec))
    → Raises rest
    → Raises (consider_ip r rest)
consider_ip-Raises (err e) rest h = tt
consider_ip-Raises (ok none) rest h = h
consider_ip-Raises (ok (some spec)) (ok specs) h = h
consider_ip-Raises (ok (some spec)) (err e) h = tt

ip_specs-Raises :
    (before behind : List Text) (spec : Text)
    → HasHostBits spec
    → Raises (ip_specs (before ++ spec ∷ behind))
unfolding ip_specs
ip_specs-Raises [] behind spec h = rw (ip_spec_of-HasHostBits spec h) tt
ip_specs-Raises (s ∷ before) behind spec h =
    consider_ip-Raises (ip_spec_of s) _ (ip_specs-Raises before behind spec h)

-- A CIDR entry with bits below its prefix (and no port, or one in range) is valid, yet `ip_specs`
-- raises on every policy that lists it.
pub valid_cidr_spec-ip_specs-Raises :
    (before behind : List Text) (spec : Text) (h : HasHostBits spec)
    → InRange h.port
    → (valid_cidr_spec spec ≡ true) × Raises (ip_specs (before ++ spec ∷ behind))
valid_cidr_spec-ip_specs-Raises before behind spec h r =
    (valid_cidr_spec-HasHostBits spec h r, ip_specs-Raises before behind spec h)
