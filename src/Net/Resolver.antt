-- ===== src/Net/Resolver.antt =====
-- `ResolverGate` of src/msks/msks/net/dns.py: what a name may do, by the live state of the policy,
-- the session memory and the consent rows. Times are milliseconds.
pub mod Classify
pub mod Pins
use msks.Prelude.{
  ℕ, ◌*◌, Bool, true, false, not, Option, none, some, List, [], ◌∷◌, ◌++◌, Text, if◌then◌else◌,
  is_none, map, min, max,
}
use msks.Egress.Lifecycle.{Decision, allowed, denied, is_denied}
use msks.Egress.Policy.{
  EgressPolicy, Mode, static, interactive, allow, other, host_specs, ports_for, covers,
}
use msks.Consent.Session.{SessionMemory, deny_ttl, allow_ports, min_allow_ttl}
use msks.Consent.Row.{EgressConsent}
use msks.Consent.Rows.{Table, forever_verdict_for}
use msks.Consent.Moves.{record_policy}

-- `LEARN`, `RECORD` and `NXDOMAIN`
pub data Action : Type 0 where
  learns records nxdomain : Action

-- `ports` is `none` for all ports, `cap` for no cap.
pub record QueryDecision : Type 0 where
  pub action : Action
  pub ports : Option (List ℕ)
  pub cap : Option ℕ

abbrev pub decision : Action → QueryDecision
decision action = record { action = action; ports = none; cap = none }

-- The calls of the model, in their order.
pub data Call : Type 0 where
  deny_read allow_read policy_write : Call

-- What the gate reads and writes. `raises` says which calls of the model raise; `id` and `audit`
-- are the fresh id and the tag of a policy row.
pub record Gate : Type 0 where
  pub policy : EgressPolicy
  pub session : SessionMemory
  pub raises : Call → Bool
  pub audit : EgressConsent → Option Text
  pub id : Text

abbrev pub is_denial : Option EgressConsent → Bool
is_denial none = false
is_denial (some row) = is_denied row.decision

-- `none` where the model raises
unfoldable pub name_denied : Gate → ℕ → Text → Table → Option Bool
name_denied g now qname table =
    let w = g.policy.workspace_id in
    if not (is_none (deny_ttl g.session w qname 0 now))
    then some true
    else if g.raises deny_read
    then none
    else some (is_denial (forever_verdict_for w qname table))

unfoldable pub record_quietly : Gate → Decision → ℕ → Text → Table → Table
record_quietly g d now qname table =
    if g.raises policy_write
    then table
    else (record_policy g.audit g.id d g.policy.workspace_id qname 0 now table).1

-- The tail by the mode.
abbrev pub mode_tail : Mode → Gate → ℕ → Text → Table → Option QueryDecision × Table
mode_tail static g now qname table =
    (some (decision nxdomain), record_quietly g denied now qname table)
mode_tail allow g now qname table =
    (some (decision records), record_quietly g allowed now qname table)
mode_tail interactive g now qname table = (some (decision records), table)
mode_tail (other m) g now qname table = (some (decision records), table)

unfoldable pub mode_decision : Gate → ℕ → Text → Table → Option QueryDecision × Table
unfolding record_quietly
mode_decision g = mode_tail g.policy.mode g

unfoldable pub forever_or_mode : Gate → ℕ → Text → Table → Option QueryDecision × Table
unfolding mode_decision
forever_or_mode g now qname table =
    if g.raises allow_read
    then (none, table)
    else if not (is_none (forever_verdict_for g.policy.workspace_id qname table))
    then (some (decision learns), table)
    else mode_decision g now qname table

unfoldable pub session_or_mode : Gate → ℕ → Text → Table → Option QueryDecision × Table
unfolding forever_or_mode
session_or_mode g now qname table =
    let w = g.policy.workspace_id in
    let ports = allow_ports g.session w qname now in
    if covers ports
    then (
      some (record { action = learns; ports = ports; cap = min_allow_ttl g.session w qname now }),
      table,
    )
    else forever_or_mode g now qname table

-- `classify` past its deny test
unfoldable pub classify_allowed : Gate → ℕ → Text → Table → Option QueryDecision × Table
unfolding session_or_mode
classify_allowed g now qname table =
    let ports = ports_for qname (host_specs g.policy.specs) in
    if covers ports
    then (some (record { action = learns; ports = ports; cap = none }), table)
    else session_or_mode g now qname table

abbrev pub classify_denied : Option Bool → Gate → ℕ → Text → Table → Option QueryDecision × Table
classify_denied none g now qname table = (none, table)
classify_denied (some true) g now qname table = (some (decision nxdomain), table)
classify_denied (some false) g now qname table = classify_allowed g now qname table

-- `none` where an exception of the model passes
unfoldable pub classify : Gate → ℕ → Text → Table → Option QueryDecision × Table
unfolding name_denied classify_allowed
classify g now qname table = classify_denied (name_denied g now qname table) g now qname table

-- One call of `consent_allow`.
pub record Pin : Type 0 where
  pub ip : Text
  pub port : Option ℕ
  pub lifetime : ℕ

abbrev pub capped : ℕ → Option ℕ → ℕ
capped ttl none = ttl * 1000
capped ttl (some c) = min (ttl * 1000) c

-- the pins of one address
abbrev pub pins_of : Text → ℕ → Option (List ℕ) → List Pin
pins_of ip lifetime none = record { ip = ip; port = none; lifetime = lifetime } ∷ []
pins_of ip lifetime (some ports) =
    map (λ port. record { ip = ip; port = some port; lifetime = lifetime }) ports

-- the calls of `learn`, in order
unfoldable pub learn : List (Text × ℕ) → Option (List ℕ) → Option ℕ → List Pin
learn [] ports most = []
learn ((ip, ttl) ∷ rest) ports most =
    pins_of ip (max (capped ttl most) 1000) ports ++ learn rest ports most

-- What a decision pins of an answer.
abbrev pub learned_by : QueryDecision → List (Text × ℕ) → List Pin
learned_by d found = elim d.action [
  | learns ↦ learn found d.ports d.cap
  | records ↦ []
  | nxdomain ↦ []
]

unfoldable pub learned : Option QueryDecision → List (Text × ℕ) → List Pin
unfolding learn
learned none found = []
learned (some d) found = learned_by d found

abbrev pub is_interactive : Mode → Bool
is_interactive interactive = true
is_interactive _ = false

-- The addresses whose pins `retract` withdraws.
unfoldable pub retract : EgressPolicy → List Text → List Text
retract policy ips = if is_interactive policy.mode then ips else []
