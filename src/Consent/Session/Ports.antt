-- ===== src/Consent/Session/Ports.antt =====
-- The port set and the rule cap of a name against its remaining times.
use msks.Prelude.{
  ℕ, ◌≤◌, Bool, true, not, ◌&&◌, ◌||◌, Option, none, some, List, [], ◌∷◌, Text, text_eq, is_none,
  if◌then◌else◌, ◌≡◌, arith, Bool-cases, inl, inr,
}
use msks.Egress.Policy.{has_port, add_port}
use msks.Egress.Policy.Matching.{has_port-add_port}
use msks.Consent.Session.{
  Entries, SessionMemory, max_opt, min_opt, remaining, covers_port, matches, entries_of, allow_ttl,
  allow_ports, collect_ports, min_allow_ttl, min_remaining,
}

-- The port is in the set, where `none` stands for all ports.
abbrev pub in_ports : ℕ → Option (List ℕ) → Bool
in_ports q none = true
in_ports q (some ports) = has_port q ports

in_ports-collect_ports :
    (entries : Entries) (h : Text) (q now : ℕ) (before : List ℕ)
    → in_ports q (collect_ports entries h now before)
      ≡ (has_port q before || not (is_none (matches entries h q now)))
unfolding collect_ports matches
in_ports-collect_ports [] h q now before = ground arith
in_ports-collect_ports (((k, none), expire) ∷ entries) h q now before =
    ground (arith, in_ports-collect_ports entries h q now before)
in_ports-collect_ports (((k, some p), expire) ∷ entries) h q now before = ground (
  arith,
  in_ports-collect_ports entries h q now before,
  in_ports-collect_ports entries h q now (add_port p before),
  has_port-add_port q p before,
)

-- A name's port set holds a port exactly when an unexpired allow covers the name on it.
pub in_ports-allow_ports :
    (s : SessionMemory) (w h : Text) (q now : ℕ)
    → in_ports q (allow_ports s w h now) ≡ not (is_none (allow_ttl s w h q now))
unfolding allow_ports allow_ttl has_port
in_ports-allow_ports s w h q now = in_ports-collect_ports (entries_of w s.allows) h q now []

-- One remaining time is at most another.
abbrev pub Within : Option ℕ → Option ℕ → Type 0
Within cap none = Unit
Within none (some r) = ⊥
Within (some m) (some r) = m ≤ r

Within-min_opt : (a c d : Option ℕ) → Within c d → Within (min_opt a c) d
Within-min_opt none c d h = h
Within-min_opt (some a) c none h = tt
Within-min_opt (some a) (some c) (some d) h = omega arith
Within-min_opt (some a) none (some d) h = absurd h

Within-min_opt-max_opt : (a c d : Option ℕ) → Within c d → Within (min_opt a c) (max_opt a d)
Within-min_opt-max_opt none c d h = h
Within-min_opt-max_opt (some a) none none h = omega arith
Within-min_opt-max_opt (some a) none (some d) h = absurd h
Within-min_opt-max_opt (some a) (some c) none h = omega arith
Within-min_opt-max_opt (some a) (some c) (some d) h = omega arith

remaining_and :
    (b c : Bool) (expire now : ℕ)
    → remaining (b && c) expire now ≡ (if c then remaining b expire now else none)
remaining_and b c expire now = ground arith

Within-min_remaining :
    (entries : Entries) (h : Text) (q now : ℕ)
    → Within (min_remaining entries h now) (matches entries h q now)
unfolding min_remaining matches
Within-min_remaining [] h q now = tt
Within-min_remaining (((k, p), expire) ∷ entries) h q now =
    rw remaining_and (elim (Bool-cases (covers_port p q)) [
      | inl e ↦ rw e (
          Within-min_opt-max_opt (remaining (text_eq k h) expire now) _ _
            (Within-min_remaining entries h q now))
      | inr e ↦ rw e (
          Within-min_opt (remaining (text_eq k h) expire now) _ _
            (Within-min_remaining entries h q now))
    ])

-- The rule cap of a name is there and at most the remaining time on every port that an allow
-- covers.
pub Within-min_allow_ttl :
    (s : SessionMemory) (w h : Text) (q now : ℕ)
    → Within (min_allow_ttl s w h now) (allow_ttl s w h q now)
unfolding min_allow_ttl allow_ttl
Within-min_allow_ttl s w h q now = Within-min_remaining (entries_of w s.allows) h q now
