-- ===== src/Interceptor.antt =====
-- The web-egress gate of src/msks/msks/interceptor/egress.py: whether a redirected web flow passes. `answer` is
-- what the future of `ConsentEngine.hold` brings for a destination: `none` where the call or the future
-- raises, and else whether the decision is an allow.
pub mod Listed
pub mod Closed
pub mod Swap
pub mod Hooks
use msks.Prelude.{
  Text, ℕ, Bool, lower, any, text_eq, Option, Result, ok, err, ◌==◌, true, false, not, ◌&&◌, ◌||◌,
  none, some, List, [], ◌∷◌, if◌then◌else◌, is_none,
}
use msks.Egress.Lifecycle.{denied, is_denied}
use msks.Egress.Grammar.{is_ipv4}
use msks.Egress.Policy.{
  WorkspaceRow, EgressPolicy, static, interactive, allow, other, is_gated, from_row, HostSpec,
  IpSpec, host_specs, ip_specs, ports_for, covers, matches,
}
use msks.Consent.Session.{SessionMemory, deny_ttl, allow_ttl}
use msks.Consent.Session.Ports.{in_ports}
use msks.Consent.Row.{EgressConsent}
use msks.Consent.Rows.{Table, forever_verdict_for}
use msks.Consent.Moves.{record_policy}

-- The reasons of the gate's own verdicts; `decided` is that of a hold's answer.
pub data WebReason : Type 0 where
  gone ungated unnamed verdict allowlist static_mode error decided : WebReason

pub record WebVerdict : Type 0 where
  pub allowed : Bool
  pub reason : WebReason

abbrev pub passes : WebReason → WebVerdict
passes reason = record { allowed = true; reason = reason }

abbrev pub deny : WebReason → WebVerdict
deny reason = record { allowed = false; reason = reason }

-- The calls of the model, in their order.
pub data Call : Type 0 where
  get_workspace verdict_read policy_write : Call

-- What the gate reads.
pub record App : Type 0 where
  pub workspaces : Text → Option WorkspaceRow
  pub session : SessionMemory
  pub table : Table
  pub raises : Call → Bool
  pub answer : Text → Text → ℕ → Option Bool
  pub audit : EgressConsent → Option Text
  pub id : Text
  pub now : ℕ

-- One redirected web flow.
pub record Flow : Type 0 where
  pub host : Text
  pub port : ℕ
  pub address : Text
  pub named : Option Text

abbrev pub or_host : Text → Text → Text
or_host [] host = host
or_host (c ∷ address) host = c ∷ address

abbrev pub key_by : Text → Text → Option Text → Text
key_by host address none = or_host address host
key_by host address (some name) = if text_eq name host then host else name

unfoldable pub gate_key : Text → Text → Option Text → Text
gate_key host address named = key_by (lower host) address named

abbrev pub is_denial : Option EgressConsent → Bool
is_denial none = false
is_denial (some row) = is_denied row.decision

-- `standing`: whether a deny and an allow cover the key, `none` where the model raises
unfoldable pub standing : App → Text → Text → ℕ → Option (Bool × Bool)
standing app w key port =
    let row = forever_verdict_for w key app.table in
    if not (is_none (deny_ttl app.session w key port app.now))
    then some (true, false)
    else if app.raises verdict_read
    then none
    else some (is_denial row, not (is_none row) && not (is_denial row))

unfoldable pub name_allowed : List HostSpec → Text → ℕ → Bool
name_allowed specs key port = covers (ports_for key specs) && in_ports port (ports_for key specs)

abbrev pub fits_port : Option ℕ → ℕ → Bool
fits_port none port = true
fits_port (some p) port = p == port

abbrev pub or_false : Option Bool → Bool
or_false none = false
or_false (some b) = b

unfoldable pub address_allowed : List IpSpec → Text → ℕ → Bool
address_allowed specs address port =
    if not (is_ipv4 address)
    then false
    else any (λ spec. fits_port spec.port port && or_false (matches spec address)) specs

abbrev pub by_address : Result Text (List IpSpec) → Text → ℕ → Option Bool
by_address (err e) address port = none
by_address (ok specs) address port = some (address_allowed specs address port)

-- `none` where `ip_specs` raises, which is read only where no name spec covers the key
unfoldable pub allowlisted : EgressPolicy → Text → ℕ → Text → Option Bool
unfolding name_allowed address_allowed
allowlisted policy key port address =
    if name_allowed (host_specs policy.specs) key port
    then some true
    else by_address (ip_specs policy.specs) address port

-- `record_policy` under its `suppress`
abbrev pub record_denied : App → Text → Text → ℕ → Table
record_denied app w key port =
    if app.raises policy_write
    then app.table
    else (record_policy app.audit app.id denied w key port app.now app.table).1

abbrev pub held : Option Bool → Option WebVerdict
held none = none
held (some b) = some (record { allowed = b; reason = decided })

unfoldable pub mode_tail : App → EgressPolicy → Text → ℕ → Option WebVerdict × Table
mode_tail app policy key port = elim policy.mode [
  | static ↦ (some (deny static_mode), record_denied app policy.workspace_id key port)
  | interactive ↦ (held (app.answer policy.workspace_id key port), app.table)
  | allow ↦ (held (app.answer policy.workspace_id key port), app.table)
  | other m ↦ (held (app.answer policy.workspace_id key port), app.table)
]

-- the allow half behind the allowlist
abbrev pub covered_by_allow : App → EgressPolicy → Text → ℕ → Bool → Bool
covered_by_allow app policy key port durable =
    durable || not (is_none (allow_ttl app.session policy.workspace_id key port app.now))

abbrev pub behind_list :
    App → EgressPolicy → Text → ℕ → Bool → Option Bool → Option WebVerdict × Table
behind_list app policy key port durable none = (none, app.table)
behind_list app policy key port durable (some true) = (some (passes allowlist), app.table)
behind_list app policy key port durable (some false) =
    if covered_by_allow app policy key port durable
    then (some (passes verdict), app.table)
    else mode_tail app policy key port

abbrev pub behind_standing :
    App → EgressPolicy → Text → ℕ → Text → Option (Bool × Bool) → Option WebVerdict × Table
behind_standing app policy key port address none = (none, app.table)
behind_standing app policy key port address (some (true, durable)) =
    (some (deny verdict), app.table)
behind_standing app policy key port address (some (false, durable)) =
    behind_list app policy key port durable (allowlisted policy key port address)

unfoldable pub covered_or_mode : App → EgressPolicy → Text → ℕ → Text → Option WebVerdict × Table
unfolding standing allowlisted mode_tail
covered_or_mode app policy key port address =
    behind_standing app policy key port address (standing app policy.workspace_id key port)

abbrev pub no_key : Text → Bool
no_key [] = true
no_key (c ∷ t) = false

abbrev pub by_policy : App → Flow → Option EgressPolicy → Option WebVerdict × Table
by_policy app flow none = (some (deny gone), app.table)
by_policy app flow (some policy) =
    let key = gate_key flow.host flow.address flow.named in
    if not (is_gated policy.mode)
    then (some (passes ungated), app.table)
    else if no_key key
    then (some (deny unnamed), app.table)
    else covered_or_mode app policy key flow.port flow.address

-- `gate`: `none` where an exception passes
unfoldable pub gate : App → Text → Flow → Option WebVerdict × Table
unfolding covered_or_mode gate_key
gate app w flow =
    if app.raises get_workspace
    then (none, app.table)
    else by_policy app flow (from_row (app.workspaces w))

abbrev pub or_error : Option WebVerdict → WebVerdict
or_error none = deny error
or_error (some v) = v

-- `decide`: every exception answers a denial
unfoldable pub decide : App → Text → Flow → WebVerdict × Table
unfolding gate
decide app w flow = (or_error (gate app w flow).0, (gate app w flow).1)
