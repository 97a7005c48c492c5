-- ===== src/Net/Resolver/Classify.antt =====
-- Which names the resolver gate of src/msks/msks/net/dns.py lets resolve.
use msks.Prelude.{
  ℕ, Bool, true, false, not, ◌&&◌, ◌||◌, Option, none, some, Text, ◌≡◌, refl, arith, is_none, any,
}
use msks.Egress.Policy.{Mode, static, interactive, allow, other, host_specs, covers}
use msks.Egress.Policy.Matching.{is_match, covers-ports_for}
use msks.Consent.Session.{deny_ttl, allow_ports}
use msks.Consent.Rows.{Table, forever_verdict_for}
use msks.Net.Resolver.{
  Action, learns, nxdomain, QueryDecision, Gate, deny_read, allow_read, is_denial, mode_decision,
  mode_tail, forever_or_mode, session_or_mode, classify_allowed, name_denied, classify,
}

abbrev pub is_learn : Action → Bool
is_learn learns = true
is_learn _ = false

abbrev pub does_resolve : Action → Bool
does_resolve nxdomain = false
does_resolve _ = true

-- A test of the action, where there is a decision.
abbrev pub decides : (Action → Bool) → Option QueryDecision → Bool
decides p none = false
decides p (some d) = p d.action

abbrev pub is_static : Mode → Bool
is_static static = true
is_static _ = false

module _ (g : Gate) (now : ℕ) (qname : Text) (table : Table) where
  -- The live state denies the whole name, or its row cannot be read.
  abbrev pub is_blocked : Bool
  is_blocked =
      not (is_none (deny_ttl g.session g.policy.workspace_id qname 0 now))
      || g.raises deny_read
      || is_denial (forever_verdict_for g.policy.workspace_id qname table)

  -- A static spec matches the name, an allow of the session covers it, or a row decides it forever.
  abbrev pub is_allowed : Bool
  is_allowed =
      any (is_match qname) (host_specs g.policy.specs)
      || covers (allow_ports g.session g.policy.workspace_id qname now)
      || (not (g.raises allow_read)
          && not (is_none (forever_verdict_for g.policy.workspace_id qname table)))

  mode_tail-learn : (m : Mode) → decides is_learn (mode_tail m g now qname table).0 ≡ false
  mode_tail-learn static = refl
  mode_tail-learn allow = refl
  mode_tail-learn interactive = refl
  mode_tail-learn (other s) = refl

  mode_tail-resolve :
      (m : Mode) → decides does_resolve (mode_tail m g now qname table).0 ≡ not (is_static m)
  mode_tail-resolve static = refl
  mode_tail-resolve allow = refl
  mode_tail-resolve interactive = refl
  mode_tail-resolve (other s) = refl

  classify-learn : decides is_learn (classify g now qname table).0 ≡ (not is_blocked && is_allowed)
  unfolding classify name_denied classify_allowed session_or_mode forever_or_mode mode_decision
  classify-learn =
      ground
        (arith, covers-ports_for qname (host_specs g.policy.specs), mode_tail-learn g.policy.mode)

  -- The name resolves at all.
  abbrev pub is_open : Bool
  is_open = is_allowed || (not (g.raises allow_read) && not (is_static g.policy.mode))

  classify-resolve :
      decides does_resolve (classify g now qname table).0 ≡ (not is_blocked && is_open)
  unfolding classify name_denied classify_allowed session_or_mode forever_or_mode mode_decision
  classify-resolve =
      ground
        (arith, covers-ports_for qname (host_specs g.policy.specs), mode_tail-resolve g.policy.mode)

  -- The gate fails closed. It learns the addresses of a name exactly when no deny covers the name and
  -- its deny rows can be read, and a static spec, an allow of the session or a forever row covers
  -- it. It lets a name resolve exactly when it learns it, or when it is not blocked, its
  -- rows can be read and the mode is not static.
  pub classify_lem :
      (decides is_learn (classify g now qname table).0 ≡ (not is_blocked && is_allowed))
      × (decides does_resolve (classify g now qname table).0 ≡ (not is_blocked && is_open))
  classify_lem = (classify-learn, classify-resolve)
