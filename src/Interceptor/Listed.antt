-- ===== src/Interceptor/Listed.antt =====
-- What the allowlist covers and what a flow is judged by in the gate of
-- src/msks/msks/interceptor/egress.py, described on its own.
use msks.Prelude.{
  Text, ℕ, Bool, Option, is_none, true, false, not, ◌&&◌, ◌||◌, none, some, ◌≡◌, List, [], ◌∷◌,
  Result, ok, err, any, text_eq, text_eq_iff, lower, ◌==◌, if◌then◌else◌, refl, arith,
}
use msks.Egress.Policy.{IpSpec, matches}
use msks.Egress.Grammar.{is_ipv4}
use msks.Interceptor.{
  Flow, or_false, no_key, gate_key, address_allowed, by_address, fits_port, or_host, key_by,
}

-- A spec with a port covers that port alone.
abbrev pub is_port : Option ℕ → ℕ → Bool
is_port none port = true
is_port (some p) port = p == port

fits_port_lem : (o : Option ℕ) (port : ℕ) → fits_port o port ≡ is_port o port
fits_port_lem none port = refl
fits_port_lem (some p) port = refl

abbrev pub is_readable : Result Text (List IpSpec) → Bool
is_readable (err e) = false
is_readable (ok specs) = true

-- An address spec covers the address and the port.
abbrev pub is_listed_address : Result Text (List IpSpec) → Text → ℕ → Bool
is_listed_address (err e) address port = false
is_listed_address (ok specs) address port =
    is_ipv4 address && any (λ spec. is_port spec.port port && or_false (matches spec address)) specs

any-fits_port :
    (specs : List IpSpec) (address : Text) (port : ℕ)
    → any (λ spec. fits_port spec.port port && or_false (matches spec address)) specs
      ≡ any (λ spec. is_port spec.port port && or_false (matches spec address)) specs
unfolding any
any-fits_port [] address port = refl
any-fits_port (spec ∷ specs) address port =
    ground (arith, fits_port_lem spec.port port, any-fits_port specs address port)

pub by_address_lem :
    (specs : Result Text (List IpSpec)) (address : Text) (port : ℕ) (otherwise : Bool)
    → (not (is_none (by_address specs address port))
        && (or_false (by_address specs address port) || otherwise))
      ≡ (is_readable specs && (is_listed_address specs address port || otherwise))
unfolding address_allowed
by_address_lem (err e) address port otherwise = refl
by_address_lem (ok specs) address port otherwise = ground (arith, any-fits_port specs address port)

-- What a flow is judged by: the name that the daemon resolved its address from; for an address with no
-- name the address, and with no address either, the host that the flow names.
abbrev pub destination : Flow → Text
destination flow = elim flow.named [
  | some name ↦ name
  | none ↦ if text_eq flow.address [] then lower flow.host else flow.address
]

pub key_by-destination :
    (flow : Flow) → gate_key flow.host flow.address flow.named ≡ destination flow
unfolding gate_key text_eq lower
key_by-destination flow = by_name flow.named
  where
    by_address :
        (address : Text)
        → or_host address (lower flow.host)
          ≡ (if text_eq address [] then lower flow.host else address)
    by_address [] = refl
    by_address (c ∷ t) = refl

    by_name :
        (named : Option Text)
        → key_by (lower flow.host) flow.address named ≡ elim named [
          | some name ↦ name
          | none ↦ if text_eq flow.address [] then lower flow.host else flow.address
        ]
    by_name none = by_address flow.address
    by_name (some name) = ground (arith, text_eq_iff name (lower flow.host))

pub no_key_lem : (key : Text) → no_key key ≡ text_eq key []
unfolding text_eq
no_key_lem [] = refl
no_key_lem (c ∷ t) = refl
