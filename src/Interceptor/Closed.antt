-- ===== src/Interceptor/Closed.antt =====
-- Which web flows pass the gate of src/msks/msks/interceptor/egress.py.
use msks.Prelude.{
  Text, ℕ, Bool, Option, is_none, Bool-cases, true, false, not, ◌&&◌, ◌||◌, none, some, ◌≡◌, ◌⊎◌,
  [], text_eq, if◌then◌else◌, sym, refl, ap, ◌∙◌, inl, inr, arith,
}
use msks.Egress.Policy.{
  EgressPolicy, Mode, static, interactive, allow, other, is_gated, from_row, covers, ports_for,
  host_specs, ip_specs,
}
use msks.Consent.Session.Ports.{in_ports}
use msks.Consent.Session.{deny_ttl, allow_ttl}
use msks.Consent.Rows.{Table, forever_verdict_for}
use msks.Interceptor.{
  WebVerdict, App, Flow, get_workspace, verdict_read, is_denial, standing, or_false, allowlisted,
  covered_by_allow, mode_tail, behind_list, behind_standing, covered_or_mode, no_key, gate_key,
  by_policy, gate, or_error, decide, held, name_allowed, passes, deny, ungated, unnamed,
}
use msks.Interceptor.Listed.{
  is_readable, is_listed_address, by_address_lem, destination, key_by-destination, no_key_lem,
}

-- What the verdict of a gate lets pass; an exception lets nothing pass.
abbrev pub lets : Option WebVerdict × Table → Bool
lets (v, table) = (or_error v).allowed

abbrev is_static : Mode → Bool
is_static static = true
is_static _ = false

Mode-cases :
    (m : Mode) → (m ≡ static) ⊎ ((m ≡ interactive) ⊎ ((m ≡ allow) ⊎ ((s : Text) × (m ≡ other s))))
Mode-cases static = inl refl
Mode-cases interactive = inr (inl refl)
Mode-cases allow = inr (inr (inl refl))
Mode-cases (other s) = inr (inr (inr (s, refl)))

lets-held : (o : Option Bool) (table : Table) → lets (held o, table) ≡ or_false o
lets-held none table = refl
lets-held (some b) table = refl

and_true : (b : Bool) → (b && true) ≡ b
and_true true = refl
and_true false = refl

or_assoc_under : (n a b c : Bool) → (n && (a || b || c)) ≡ (n && (a || (b || c)))
or_assoc_under n a b c = ground arith

module _ (app : App) (policy : EgressPolicy) (key : Text) (port : ℕ) (address : Text) where
  -- A deny covers the destination, or the rows cannot be read.
  abbrev pub is_blocked : Bool
  is_blocked =
      not (is_none (deny_ttl app.session policy.workspace_id key port app.now))
      || app.raises verdict_read
      || is_denial (forever_verdict_for policy.workspace_id key app.table)

  -- A forever row or an allow of the session covers the destination.
  abbrev pub is_covered : Bool
  is_covered =
      not (is_none (forever_verdict_for policy.workspace_id key app.table))
      || not (is_none (allow_ttl app.session policy.workspace_id key port app.now))

  -- The engine's answer to a hold allows it, in a mode that holds.
  abbrev pub is_answered : Bool
  is_answered = not (is_static policy.mode) && or_false (app.answer policy.workspace_id key port)

  -- A name spec of the allowlist matches the destination and its port.
  abbrev pub is_listed_name : Bool
  is_listed_name =
      covers (ports_for key (host_specs policy.specs))
      && in_ports port (ports_for key (host_specs policy.specs))

  -- A name spec covers the destination; or the address specs can be read, and one covers the address,
  -- or a lasting allow or an answer the destination.
  abbrev pub is_permitted : Bool
  is_permitted =
      is_listed_name
      || (is_readable (ip_specs policy.specs)
          && (is_listed_address (ip_specs policy.specs) address port
              || (is_covered || is_answered)))

  allowlisted-permitted :
      (not (is_none (allowlisted policy key port address))
        && (or_false (allowlisted policy key port address) || (is_covered || is_answered)))
      ≡ is_permitted
  unfolding allowlisted name_allowed
  allowlisted-permitted = elim (Bool-cases is_listed_name) [
    | inl e ↦ rw e refl
    | inr e ↦ rw e (by_address_lem (ip_specs policy.specs) address port (is_covered || is_answered))
  ]

  lets-mode_tail : lets (mode_tail app policy key port) ≡ is_answered
  unfolding mode_tail
  lets-mode_tail = elim (Mode-cases policy.mode) [
    | inl e ↦ rw e refl
    | inr (inl e) ↦ rw e (lets-held (app.answer policy.workspace_id key port) app.table)
    | inr (inr (inl e)) ↦ rw e (lets-held (app.answer policy.workspace_id key port) app.table)
    | inr (inr (inr (s, e))) ↦ rw e (lets-held (app.answer policy.workspace_id key port) app.table)
  ]

  lets-behind_list :
      (durable : Bool) (o : Option Bool)
      → lets (behind_list app policy key port durable o) ≡ (
          not (is_none o)
          && (or_false o || covered_by_allow app policy key port durable || is_answered))
  lets-behind_list durable none = refl
  lets-behind_list durable (some true) = refl
  lets-behind_list durable (some false) = ground (arith, lets-mode_tail)

  lets-behind_standing :
      lets (behind_standing app policy key port address (standing app policy.workspace_id key port))
      ≡ (not is_blocked
          && lets (
              behind_list app policy key port
                (not (is_none (forever_verdict_for policy.workspace_id key app.table)))
                (allowlisted policy key port address)))
  unfolding standing
  lets-behind_standing =
      elim (Bool-cases (is_none (deny_ttl app.session policy.workspace_id key port app.now))) [
        | inr e ↦ rw e refl
        | inl e ↦ elim (Bool-cases (app.raises verdict_read)) [
          | inl f ↦ rw (e, f) refl
          | inr f ↦
              elim (Bool-cases
                (is_denial (forever_verdict_for policy.workspace_id key app.table))) [
                  | inl g ↦ rw (e, f, g) refl
                  | inr g ↦
                      rw (e, f, g)
                        (ap
                          (λ b. lets (
                            behind_list app policy key port b
                              (allowlisted policy key port address)))
                          (and_true (
                            not (is_none (forever_verdict_for policy.workspace_id key app.table)))))
                ]
        ]
      ]

  lets-covered_or_mode :
      lets (covered_or_mode app policy key port address) ≡ (not is_blocked && is_permitted)
  unfolding covered_or_mode
  lets-covered_or_mode =
      lets-behind_standing
      ∙ ap (λ b. not is_blocked && b)
          (lets-behind_list (not (is_none (forever_verdict_for policy.workspace_id key app.table)))
              (allowlisted policy key port address)
            ∙ or_assoc_under (not (is_none (allowlisted policy key port address)))
                (or_false (allowlisted policy key port address)) is_covered is_answered
            ∙ allowlisted-permitted)

-- The flow's own destination, under the policy of its workspace.
abbrev pub permits : App → Flow → Option EgressPolicy → Bool
permits app flow none = false
permits app flow (some policy) =
    let key = destination flow in
    not (is_gated policy.mode)
    || (not (text_eq key [])
        && (not (is_blocked app policy key flow.port flow.address)
            && is_permitted app policy key flow.port flow.address))

lets-keyed :
    (app : App) (flow : Flow) (policy : EgressPolicy) (key : Text)
    → lets (
        if not (is_gated policy.mode)
        then (some (passes ungated), app.table)
        else if no_key key
        then (some (deny unnamed), app.table)
        else covered_or_mode app policy key flow.port flow.address)
      ≡ (not (is_gated policy.mode)
          || (not (text_eq key [])
              && (not (is_blocked app policy key flow.port flow.address)
                  && is_permitted app policy key flow.port flow.address)))
lets-keyed app flow policy key = elim (Bool-cases (is_gated policy.mode)) [
  | inr e ↦ rw e refl
  | inl e ↦ rw e (elim (Bool-cases (no_key key)) [
    | inl f ↦ rw (f, sym (no_key_lem key) ∙ f) refl
    | inr f ↦
        rw (f, sym (no_key_lem key) ∙ f)
          (lets-covered_or_mode app policy key flow.port flow.address)
  ])
]

lets-by_policy :
    (app : App) (flow : Flow) (o : Option EgressPolicy)
    → lets (by_policy app flow o) ≡ permits app flow o
lets-by_policy app flow none = refl
lets-by_policy app flow (some policy) =
    lets-keyed app flow policy (gate_key flow.host flow.address flow.named)
    ∙ ap
        (λ (key : Text).
          not (is_gated policy.mode)
          || (not (text_eq key [])
              && (not (is_blocked app policy key flow.port flow.address)
                  && is_permitted app policy key flow.port flow.address)))
        (key_by-destination flow)

-- The web gate fails closed. A flow passes exactly when the workspace's row can be read and is there, and its
-- mode is not gated or all of these hold: the flow has a destination, which is the name that its
-- address was resolved from, with no name the address, and with no address the lowercased host;
-- the consent rows can be read, and no deny covers the destination; and a name spec covers it
-- and its port, or the address specs can be read and one covers the address and the port, a
-- forever row or an allow of the session covers the destination, or the answer to a hold
-- allows it in a mode other than static.
pub decide-allowed :
    (app : App) (w : Text) (flow : Flow)
    → (decide app w flow).0.allowed
      ≡ (not (app.raises get_workspace) && permits app flow (from_row (app.workspaces w)))
unfolding decide gate
decide-allowed app w flow = elim (Bool-cases (app.raises get_workspace)) [
  | inl e ↦ rw e refl
  | inr e ↦ rw e (lets-by_policy app flow (from_row (app.workspaces w)))
]
