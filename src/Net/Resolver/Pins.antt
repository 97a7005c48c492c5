-- ===== src/Net/Resolver/Pins.antt =====
-- How long the addresses stay pinned that the resolver gate of src/msks/msks/net/dns.py learns from a
-- name.
use msks.Prelude.{
  ℕ, ◌≤◌, Bool, true, false, ◌||◌, Option, none, some, List, [], ◌∷◌, ◌++◌, Text, ◌≡◌, ◌⊎◌, refl,
  ◌∙◌, inl, inr, arith, ◌==◌, is_none, any, max,
}
use msks.Egress.Policy.{host_specs, covers, has_port}
use msks.Egress.Policy.Matching.{is_match, covers-ports_for}
use msks.Consent.Session.{allow_ttl, allow_ports, min_allow_ttl}
use msks.Consent.Session.Ports.{in_ports, in_ports-allow_ports, Within, Within-min_allow_ttl}
use msks.Consent.Rows.{Table}
use msks.Net.Resolver.{
  Gate, Pin, pins_of, capped, learn, classify_allowed, session_or_mode, classify, name_denied,
  learned,
}

-- The pin lets a connection to the port pass.
abbrev pub lets : Option ℕ → ℕ → Bool
lets none q = true
lets (some p) q = q == p

-- The pin of a port ends with the remaining time, or after the second that a pin lasts at least.
abbrev pub IsTimed : Option ℕ → ℕ → Type 0
IsTimed none lifetime = ⊥
IsTimed (some r) lifetime = lifetime ≤ max r 1000

abbrev pub All : (Pin → Type 0) → List Pin → Type 0
All P [] = Unit
All P (p ∷ pins) = P p × All P pins

All-append : (P : Pin → Type 0) (xs ys : List Pin) → All P xs → All P ys → All P (xs ++ ys)
All-append P [] ys f h = h
All-append P (x ∷ xs) ys f h = (f.0, All-append P xs ys f.1 h)

denied-cases : (o : Option Bool) → (o ≡ none) ⊎ ((o ≡ some true) ⊎ (o ≡ some false))
denied-cases none = inl refl
denied-cases (some true) = inr (inl refl)
denied-cases (some false) = inr (inr refl)

or_left : (a b : Bool) → a ≡ true → (a || b) ≡ true
or_left a b h = ground (arith, h)

or_right : (a b : Bool) → b ≡ true → (a || b) ≡ true
or_right a b h = ground (arith, h)

module _ (left : ℕ → Option ℕ) where
  -- The pin lasts no longer than the time that is left on every port that it lets pass.
  abbrev pub Ends : Pin → Type 0
  Ends p = (q : ℕ) → lets p.port q ≡ true → IsTimed (left q) p.lifetime

  abbrev Covers : Option (List ℕ) → Type 0
  Covers ports = (q : ℕ) → in_ports q ports ≡ true → is_none (left q) ≡ false

  timed :
      (o most : Option ℕ) (ttl : ℕ)
      → is_none o ≡ false
      → Within most o
      → IsTimed o (max (capped ttl most) 1000)
  timed none most ttl h w = ground (arith, h)
  timed (some r) none ttl h w = elim w [ ]
  timed (some r) (some c) ttl h w = omega (arith, w)

  pins_of-Ends :
      (ip : Text) (ttl : ℕ) (ports : Option (List ℕ)) (most : Option ℕ)
      → Covers ports
      → ((q : ℕ) → Within most (left q))
      → All Ends (pins_of ip (max (capped ttl most) 1000) ports)
  unfolding has_port
  pins_of-Ends ip ttl none most covered w =
      (λ q _. timed (left q) most ttl (covered q refl) (w q), tt)
  pins_of-Ends ip ttl (some []) most covered w = tt
  pins_of-Ends ip ttl (some (p ∷ ports)) most covered w = (
    λ q same. timed (left q) most ttl (covered q (or_left (q == p) (has_port q ports) same)) (w q),
    pins_of-Ends ip ttl (some ports) most
        (λ q here. covered q (or_right (q == p) (has_port q ports) here)) w,
  )

  learn-Ends :
      (found : List (Text × ℕ)) (ports : Option (List ℕ)) (most : Option ℕ)
      → Covers ports
      → ((q : ℕ) → Within most (left q))
      → All Ends (learn found ports most)
  unfolding learn
  learn-Ends [] ports most covered w = tt
  learn-Ends ((ip, ttl) ∷ found) ports most covered w =
      All-append Ends (pins_of ip (max (capped ttl most) 1000) ports) (learn found ports most)
        (pins_of-Ends ip ttl ports most covered w) (learn-Ends found ports most covered w)

module _ (g : Gate) (now : ℕ) (qname : Text) (table : Table) where
  abbrev pub left_on : ℕ → Option ℕ
  left_on q = allow_ttl g.session g.policy.workspace_id qname q now

  session-Ends :
      (found : List (Text × ℕ))
      → All (Ends left_on) (
          learn found
            (allow_ports g.session g.policy.workspace_id qname now)
            (min_allow_ttl g.session g.policy.workspace_id qname now))
  session-Ends found =
      learn-Ends left_on found (allow_ports g.session g.policy.workspace_id qname now)
        (min_allow_ttl g.session g.policy.workspace_id qname now)
        (λ q h. ground (arith, h, in_ports-allow_ports g.session g.policy.workspace_id qname q now))
        (λ q. Within-min_allow_ttl g.session g.policy.workspace_id qname q now)

  -- A name that no static spec matches and an allow of the session covers is learned from that allow
  -- at most: whatever its answer says, every address is pinned, on every port that the pin lets
  -- pass, for no longer than the time that is left of an allow of the name on this port, or one second.
  pub learned-Ends :
      (found : List (Text × ℕ))
      → any (is_match qname) (host_specs g.policy.specs) ≡ false
      → covers (allow_ports g.session g.policy.workspace_id qname now) ≡ true
      → All (Ends left_on) (learned (classify g now qname table).0 found)
  unfolding classify classify_allowed session_or_mode learned
  learned-Ends found unlisted covered = elim (denied-cases (name_denied g now qname table)) [
    | inl e ↦ rw e tt
    | inr (inl e) ↦ rw e tt
    | inr (inr e) ↦
        rw (e, covers-ports_for qname (host_specs g.policy.specs) ∙ unlisted, covered)
          (session-Ends found)
  ]
