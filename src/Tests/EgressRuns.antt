-- ===== src/Tests/EgressRuns.antt =====
-- src/msks/msks/spec/egress.py on concrete specs.
use msks.Prelude.{
  true, false, none, some, List, [], ◌∷◌, Text, codes, text_eq, contains, split, split_last,
  split_first, starts_with, ends_with, all_digits, int_of, strip, mem_text, any, all, is_alnum, ◌≡◌,
  refl, ok,
}
use msks.Egress.Address.{parse_network, parse_ipv4, parse_prefix, has_host_bits}
use msks.Egress.Grammar.{
  exact, inclusive, valid_spec, valid_cidr_spec, split_port, is_port_digits, parse_allowlist,
  valid_host_spec, matches_domain, valid_port_suffix, has_space, strip_scope_sigil, collect_entry,
  matches_name,
}
use msks.Egress.Grammar.Allowlist.{Parsed, parse_allowlist_lem}
use msks.Egress.Policy.{HostSpec, host_matches, ports_for, ip_specs}
use msks.Egress.Policy.Matching.{PortsAre, ports_for_lem}
use msks.Egress.Policy.HostBits.{HasHostBits, Raises, valid_cidr_spec-ip_specs-Raises}

-- A name that ends like the host without the dot is outside the scope.
evil_name : host_matches (codes "evilexample.com") (codes "example.com") inclusive ≡ false
unfolding host_matches text_eq ends_with
evil_name = refl

abbrev two_specs : List HostSpec
two_specs =
    record { host = codes "example.com"; port = some 443; scope = exact }
    ∷ record { host = codes "example.com"; port = some 80; scope = inclusive }
    ∷ []

ports_for_lem_example :
    PortsAre (codes "example.com") two_specs [] (ports_for (codes "example.com") two_specs)
ports_for_lem_example = ports_for_lem (codes "example.com") two_specs

abbrev raw_entries : List Text
raw_entries = codes " example.com " ∷ codes "" ∷ codes "example.com" ∷ codes "10.0.0.0/8:443" ∷ []

parsed_entries :
    parse_allowlist raw_entries ≡ ok (codes "example.com" ∷ codes "10.0.0.0/8:443" ∷ [])
unfolding parse_allowlist collect_entry valid_spec valid_cidr_spec valid_host_spec matches_domain
    valid_port_suffix has_space strip_scope_sigil split_port is_port_digits strip text_eq contains
    split split_last starts_with all_digits int_of mem_text any all is_alnum parse_network
    parse_ipv4 parse_prefix split_first matches_name
parsed_entries = refl

parse_allowlist_lem_example : Parsed raw_entries (parse_allowlist raw_entries)
parse_allowlist_lem_example = parse_allowlist_lem raw_entries

abbrev host_bits : Text
host_bits = codes "10.0.0.5/8"

host_bits-HasHostBits : HasHostBits host_bits
unfolding split_port split_last contains split parse_ipv4 parse_prefix has_host_bits all_digits
    text_eq int_of
host_bits-HasHostBits = record {
  base = host_bits;
  port = none;
  addr = codes "10.0.0.5";
  pre = codes "8";
  address = 167772165;
  prefixlen = 8;
  is_split = refl;
  slashed = refl;
  base_slashed = refl;
  parts = refl;
  address_parses = refl;
  prefix_parses = refl;
  host_bits = refl;
}

host_bits-Raises : (valid_cidr_spec host_bits ≡ true) × Raises (ip_specs (host_bits ∷ []))
unfolding host_bits-HasHostBits
host_bits-Raises = valid_cidr_spec-ip_specs-Raises [] [] host_bits host_bits-HasHostBits tt
