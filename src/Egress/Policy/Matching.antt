-- ===== src/Egress/Policy/Matching.antt =====
-- What the name matching and the port gate of the policy decide.
use msks.Prelude.{
  ℕ, Bool, true, false, ◌&&◌, ◌||◌, Option, none, some, List, [], ◌∷◌, ◌++◌, Text, text_eq,
  text_eq_iff, ends_with, ends_with-append, ends_with→append, any, ◌==◌, ◌≡◌, refl, ap, ◌↔◌, ◌⊎◌,
  inl, inr, arith, is_none, Bool-cases, Option-cases,
}
use msks.Egress.Grammar.{Scope, exact, inclusive, subdomains, unknown}
use msks.Egress.Policy.{HostSpec, host_matches, has_port, add_port, ports_from, ports_for, covers}

-- Some label sequence stands before a dot and the host.
abbrev pub IsSubdomain : Text → Text → Type 0
IsSubdomain qname host = (labels : Text) × (qname ≡ labels ++ b'.' ∷ host)

-- The names that a scope admits for a host.
abbrev pub InScope : Text → Text → Scope → Type 0
InScope qname host exact = qname ≡ host
InScope qname host inclusive = (qname ≡ host) ⊎ IsSubdomain qname host
InScope qname host subdomains = IsSubdomain qname host
InScope qname host (unknown s) = qname ≡ host

-- A name matches exactly when the scope admits it: the host itself, or the host behind a dot.
pub host_matches_iff :
    (qname host : Text) (scope : Scope)
    → (host_matches qname host scope ≡ true) ↔ InScope qname host scope
unfolding host_matches
host_matches_iff qname host exact = text_eq_iff qname host
host_matches_iff qname host inclusive = (
  λ h. elim (Bool-cases (text_eq qname host)) [
    | inl same ↦ inl ((text_eq_iff qname host).0 same)
    | inr other ↦ inr (ends_with→append qname (b'.' ∷ host) (ground arith))
  ],
  λ d. elim d [
    | inl e ↦ ground (arith, text_eq_iff qname host)
    | inr (labels, e) ↦ ground (
      arith,
      ap (λ (t : Text). ends_with t (b'.' ∷ host)) e,
      ends_with-append labels (b'.' ∷ host),
    )
  ],
)
host_matches_iff qname host subdomains = (
  ends_with→append qname (b'.' ∷ host),
  λ (labels, e). rw e (ends_with-append labels (b'.' ∷ host)),
)
host_matches_iff qname host (unknown s) = text_eq_iff qname host

abbrev pub is_match : Text → HostSpec → Bool
is_match qname spec = host_matches qname spec.host spec.scope

-- A matching spec with no port.
abbrev pub open_match : Text → HostSpec → Bool
open_match qname spec = is_match qname spec && is_none spec.port

abbrev pub at_port : ℕ → Option ℕ → Bool
at_port p none = false
at_port p (some q) = p == q

-- A matching spec with this port.
abbrev pub port_match : Text → ℕ → HostSpec → Bool
port_match qname p spec = is_match qname spec && at_port p spec.port

pub has_port-add_port :
    (p q : ℕ) (ports : List ℕ) → has_port p (add_port q ports) ≡ (p == q || has_port p ports)
unfolding has_port add_port
has_port-add_port p q ports = ground (arith, ap (λ (r : ℕ). has_port r ports) {x = p} {y = q})

abbrev pub PortsAre : Text → List HostSpec → List ℕ → Option (List ℕ) → Type 0
PortsAre qname specs before none = any (open_match qname) specs ≡ true
PortsAre qname specs before (some ports) =
    (any (open_match qname) specs ≡ false)
    × ((p : ℕ) → has_port p ports ≡ (has_port p before || any (port_match qname p) specs))

module _ (qname : Text) (spec : HostSpec) (specs : List HostSpec) (before : List ℕ) where
  PortsAre-skip :
      (r : Option (List ℕ))
      → is_match qname spec ≡ false
      → PortsAre qname specs before r
      → PortsAre qname (spec ∷ specs) before r
  unfolding any
  PortsAre-skip none h k = ground arith
  PortsAre-skip (some ports) h k = (ground arith, λ p. ground (arith, k.1 p))

  PortsAre-add :
      (q : ℕ) (r : Option (List ℕ))
      → is_match qname spec ≡ true
      → spec.port ≡ some q
      → PortsAre qname specs (add_port q before) r
      → PortsAre qname (spec ∷ specs) before r
  unfolding any
  PortsAre-add q none h e k = ground arith
  PortsAre-add q (some ports) h e k =
      (ground arith, λ p. ground (arith, k.1 p, has_port-add_port p q before))

ports_from_lem :
    (qname : Text) (before : List ℕ) (specs : List HostSpec)
    → PortsAre qname specs before (ports_from qname before specs)
unfolding ports_from any
ports_from_lem qname before [] = (refl, λ p. ground arith)
ports_from_lem qname before (spec ∷ specs) =
    elim (Bool-cases (host_matches qname spec.host spec.scope)) [
      | inl hit ↦ elim (Option-cases spec.port) [
        | inl all_ports ↦ simp (hit, all_ports, ports_from) (ground arith)
        | inr (q, e) ↦
            simp (hit, e, ports_from)
              (PortsAre-add qname spec specs before q _ hit e
                (ports_from_lem qname (add_port q before) specs))
      ]
      | inr miss ↦
          rw (miss, ports_from)
            (PortsAre-skip qname spec specs before _ miss (ports_from_lem qname before specs))
    ]

-- `ports_for` is `None` exactly when a matching spec has no port; otherwise the set holds a port
-- exactly when a matching spec names it, whatever the order of the specs.
pub ports_for_lem :
    (qname : Text) (specs : List HostSpec) → PortsAre qname specs [] (ports_for qname specs)
unfolding ports_for
ports_for_lem qname specs = ports_from_lem qname [] specs

add_port-ne-nil : (p : ℕ) (ports : List ℕ) → covers (some (add_port p ports)) ≡ true
unfolding add_port has_port
add_port-ne-nil p [] = refl
add_port-ne-nil p (q ∷ ports) = ground arith

covers-ports_from :
    (qname : Text) (before : List ℕ) (specs : List HostSpec)
    → covers (ports_from qname before specs) ≡ (covers (some before) || any (is_match qname) specs)
unfolding ports_from any
covers-ports_from qname before [] = ground arith
covers-ports_from qname before (spec ∷ specs) =
    elim (Bool-cases (host_matches qname spec.host spec.scope)) [
      | inl hit ↦ elim (Option-cases spec.port) [
        | inl all_ports ↦ simp (hit, all_ports, ports_from) (ground arith)
        | inr (q, e) ↦
            simp (hit, e, ports_from)
              (ground (
                arith,
                covers-ports_from qname (add_port q before) specs,
                add_port-ne-nil q before,
              ))
      ]
      | inr miss ↦ rw (miss, ports_from) (covers-ports_from qname before specs)
    ]

-- The gate lets a name through exactly when some spec matches it, on whatever port.
pub covers-ports_for :
    (qname : Text) (specs : List HostSpec)
    → covers (ports_for qname specs) ≡ any (is_match qname) specs
unfolding ports_for
covers-ports_for qname specs = covers-ports_from qname [] specs
