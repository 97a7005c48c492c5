-- ===== src/Egress/Policy.antt =====
-- The policy and the matching of src/msks/msks/spec/egress.py, from `HostSpec` to
-- `allow_all_cidrs`.
pub mod HostBits
pub mod Matching
use msks.Prelude.{
  ℕ, Bool, true, false, not, ◌&&◌, ◌||◌, Option, none, some, List, [], ◌∷◌, Text, text_eq, contains,
  ends_with, lower, filter, ◌==◌, if◌then◌else◌, Result, ok, err,
}
use msks.Egress.Address.{Ipv4Network, parse_network, parse_ipv4, in_network}
use msks.Egress.Grammar.{
  Scope, exact, inclusive, subdomains, unknown, split_port, strip_scope_sigil, is_ipv4, slash,
}

-- `MODE_STATIC`, `MODE_INTERACTIVE`, `MODE_ALLOW`, and any other string
pub data Mode : Type 0 where
  static interactive allow : Mode
  other : Text → Mode

pub record HostSpec : Type 0 where
  pub host : Text
  pub port : Option ℕ
  pub scope : Scope

pub record IpSpec : Type 0 where
  pub network : Ipv4Network
  pub port : Option ℕ

pub record EgressPolicy : Type 0 where
  pub workspace_id : Text
  pub mode : Mode
  pub specs : List Text

-- The workspace row's columns that the policy reads; `none` is an absent or empty mode.
pub record WorkspaceRow : Type 0 where
  pub id : Text
  pub egress_mode : Option Mode
  pub egress_allowlist : List Text

abbrev pub mode_or_allow : Option Mode → Mode
mode_or_allow none = allow
mode_or_allow (some m) = m

unfoldable pub from_row : Option WorkspaceRow → Option EgressPolicy
from_row none = none
from_row (some row) = some (record {
  workspace_id = row.id;
  mode = mode_or_allow row.egress_mode;
  specs = row.egress_allowlist;
})

abbrev pub is_gated : Mode → Bool
is_gated static = true
is_gated interactive = true
is_gated _ = false

-- `IpSpec.matches`; `none` for the `ValueError` of an address that does not parse
unfoldable pub matches : IpSpec → Text → Option Bool
matches spec address = elim (parse_ipv4 address) [
  | none ↦ none
  | some a ↦ some (in_network a spec.network)
]

-- one round of `host_specs`
unfoldable pub host_spec_of : Text → Option HostSpec
host_spec_of spec =
    let (host, port) = split_port spec in
    let (stripped, scope) = strip_scope_sigil (lower host) in
    if contains slash spec
    then none
    else if not (text_eq stripped []) && not (is_ipv4 stripped)
    then some (record { host = stripped; port = port; scope = scope })
    else none

abbrev consider : Option HostSpec → List HostSpec → List HostSpec
consider none specs = specs
consider (some spec) specs = spec ∷ specs

unfoldable pub host_specs : List Text → List HostSpec
host_specs [] = []
host_specs (spec ∷ specs) = consider (host_spec_of spec) (host_specs specs)

-- one round of `ip_specs`: `ok none` for a name, `err` for the `ValueError`
abbrev network_spec : Text → Option ℕ → Option Ipv4Network → Result Text (Option IpSpec)
network_spec base port none = err base
network_spec base port (some net) = ok (some (record { network = net; port = port }))

unfoldable pub ip_spec_of : Text → Result Text (Option IpSpec)
ip_spec_of spec =
    let (base, port) = split_port spec in
    if contains slash base || is_ipv4 base
    then network_spec base port (parse_network true base)
    else ok none

abbrev pub consider_ip :
    Result Text (Option IpSpec) → Result Text (List IpSpec) → Result Text (List IpSpec)
consider_ip (err e) rest = err e
consider_ip (ok none) rest = rest
consider_ip (ok (some spec)) (err e) = err e
consider_ip (ok (some spec)) (ok specs) = ok (spec ∷ specs)

-- `ip_specs`, with the base text that `IPv4Network` refuses as the error
unfoldable pub ip_specs : List Text → Result Text (List IpSpec)
ip_specs [] = ok []
ip_specs (spec ∷ specs) = consider_ip (ip_spec_of spec) (ip_specs specs)

unfoldable pub host_matches : Text → Text → Scope → Bool
host_matches qname host subdomains = ends_with qname (b'.' ∷ host)
host_matches qname host inclusive = text_eq qname host || ends_with qname (b'.' ∷ host)
host_matches qname host exact = text_eq qname host
host_matches qname host (unknown s) = text_eq qname host

unfoldable pub has_port : ℕ → List ℕ → Bool
has_port p [] = false
has_port p (q ∷ ports) = p == q || has_port p ports

-- `ports.add(p)`
unfoldable pub add_port : ℕ → List ℕ → List ℕ
unfolding has_port
add_port p ports = if has_port p ports then ports else p ∷ ports

-- the loop of `ports_for` with the set so far; a set is a list without repetition
unfoldable pub ports_from : Text → List ℕ → List HostSpec → Option (List ℕ)
unfolding add_port
ports_from qname ports [] = some ports
ports_from qname ports (spec ∷ specs) = elim (host_matches qname spec.host spec.scope) [
  | false ↦ ports_from qname ports specs
  | true ↦ elim spec.port [ none ↦ none | some p ↦ ports_from qname (add_port p ports) specs ]
]

unfoldable pub ports_for : Text → List HostSpec → Option (List ℕ)
unfolding ports_from
ports_for qname specs = ports_from qname [] specs

abbrev pub covers : Option (List ℕ) → Bool
covers none = true
covers (some []) = false
covers (some (p ∷ ports)) = true

-- `allow_all_cidrs`, the specs before they are printed
unfoldable pub allow_all_cidrs : List IpSpec → List IpSpec
allow_all_cidrs = filter (λ spec. spec.network.prefixlen == 0)
