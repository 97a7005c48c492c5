-- ===== src/Consent/Engine/Settle.antt =====
-- How a hold of `ConsentEngine` ends (src/msks/msks/consent/coordinator.py): the decider's verdict,
-- the timeout and the teardowns.
use msks.Prelude.{
  ℕ, suc, Bool, false, not, Option, none, some, [], ◌∷◌, ◌++◌, Text, text_eq, if◌then◌else◌, filter,
  Result, ok, err, codes,
}
use msks.Prelude.Dict.{Dict, get, put, remove, text_key}
use msks.Egress.Policy.{}
use msks.Egress.Lifecycle.{Decision, expired, is_allowed, Duration, duration_ttl}
use msks.Consent.Row.{EgressConsent}
use msks.Consent.Moves.{decide, expire_pending, clear_tilrestart}
use msks.Consent.Session.{SessionMemory}
use msks.Consent.Session
use msks.Consent.Verdict.{Reason, because, Verdict, closed, built_verdict, port_or_none}
use msks.Consent.Engine.Frames.{broadcast_rules}
use msks.Consent.Engine.State.{
  ◌>>◌, resolved, Engine, Call, row_decide, row_expire, tilrestart_clear, M, modify, on_rows, call,
}

-- `pop_hold`: the hold leaves the dict and its timeout task is cancelled.
unfoldable pub pop_hold : Text → Engine → Option Text × Engine
pop_hold id e = elim (get id e.holds) [
  | none ↦ (none, e)
  | some w ↦ (
    some w,
    record e { holds = remove id e.holds; timers = filter (λ t. not (text_eq t id)) e.timers },
  )
]

-- `finish`: the first answer wins.
unfoldable pub finish : Text → Verdict → Engine → Engine
finish id verdict e = elim (get id e.answers) [
  | some v ↦ e
  | none ↦ record e { answers = put id verdict e.answers }
]

unfoldable pub fail_close_hold : Text → Text → Reason → Engine → Engine
fail_close_hold id w reason e = elim (get id e.answers) [
  | some v ↦ e
  | none ↦ record e {
    answers = put id (closed reason) e.answers;
    frames = e.frames ++ resolved w id expired ∷ [];
  }
]

-- `remember_verdict`
unfoldable pub remember_verdict :
    Text → Text → ℕ → Decision → Duration → ℕ → SessionMemory → SessionMemory
remember_verdict w host port decision duration now s = elim (duration_ttl duration) [
  | none ↦ s
  | some ttl ↦
      if is_allowed decision
      then Session.allow s w host (port_or_none port) ttl now
      else Session.deny s w host (port_or_none port) ttl now
]

-- `cancel_hold_task`
abbrev pub cancel_timer : Text → Engine → Engine
cancel_timer id e = record e { timers = filter (λ t. not (text_eq t id)) e.timers }

abbrev pub owned_by : Text → Option Text → Bool
owned_by w none = false
owned_by w (some owner) = text_eq owner w

abbrev pub row_or_none : {E : Type 0} → Result E (Option EgressConsent) → Option EgressConsent
row_or_none (ok row) = row
row_or_none (err e) = none

module _ (audit : EgressConsent → Option Text) (raises : Call → Bool) where
  -- `suppress(Exception): expire_pending`, and the logged exception of `fail_close`
  unfoldable pub expire_quietly : Text → ℕ → Engine → Engine
  expire_quietly id now e =
      if raises row_expire then e else record e { rows = (expire_pending audit id now e.rows).1 }

  -- `decide_or_none`: a `ValueError`, like every exception, gives `None`.
  unfoldable pub decide_or_none :
      Text → Decision → Text → Duration → ℕ → Engine → Option EgressConsent × Engine
  decide_or_none id decision by duration now e =
      if raises row_decide
      then (none, e)
      else (let (row, rows) = decide audit id decision by duration now e.rows in
          (row_or_none row, record e { rows = rows }))

  -- `resolve` after the pop, up to the rules frame: the row, the future, the memory, the frame.
  unfoldable pub settle :
      Text → Text → Decision → Duration → ℕ → Option EgressConsent × Engine → Verdict × Engine
  unfolding expire_quietly
  settle id w decision duration now (none, e) =
      let (verdict, label) = built_verdict none decision duration in
      let done = expire_quietly id now (finish id verdict e) in
      (verdict, record done { frames = done.frames ++ resolved w id label ∷ [] })
  settle id w decision duration now (some row, e) =
      let (verdict, label) = built_verdict (some row) decision duration in
      let done = finish id verdict e in
      (
        verdict,
        record done {
          session =
              remember_verdict w row.dest_host row.dest_port decision duration now done.session;
          frames = done.frames ++ resolved w id label ∷ [];
        },
      )

  abbrev pub settle_popped :
      Text → Decision → Text → Duration → ℕ → Option Text × Engine → Option Verdict × Engine
  settle_popped id decision by duration now (none, e) = (none, e)
  settle_popped id decision by duration now (some w, e) =
      let (verdict, e') =
        settle id w decision duration now (decide_or_none id decision by duration now e) in
      (some verdict, broadcast_rules raises w now e')

  unfoldable pub resolve : Text → Decision → Text → Duration → ℕ → Engine → Option Verdict × Engine
  unfolding settle decide_or_none pop_hold
  resolve id decision by duration now e = settle_popped id decision by duration now (pop_hold id e)

  -- `fail_close`: it does not cancel the timeout task.
  unfoldable pub fail_close : Text → Reason → ℕ → Engine → Engine
  unfolding expire_quietly
  fail_close id reason now e = elim (get id e.holds) [
    | none ↦ e
    | some w ↦
        fail_close_hold id w reason (expire_quietly id now (record e { holds = remove id e.holds }))
  ]

  -- the task ends after its sleep
  unfoldable pub timeout_hold : Text → ℕ → Engine → Engine
  unfolding fail_close
  timeout_hold id now e =
      let closed_hold = fail_close id (because (codes "timeout")) now e in
      record closed_hold { timers = filter (λ t. not (text_eq t id)) closed_hold.timers }

  -- the loop of `fail_close_workspace` over the requests held at its start
  unfoldable pub close_all_of : Text → Reason → ℕ → Dict Text Text → Engine → ℕ × Engine
  unfolding fail_close
  close_all_of w reason now [] e = (0, e)
  close_all_of w reason now ((id, v) ∷ items) e =
      let here = owned_by w (get id e.holds) in
      let (n, e') =
        close_all_of w reason now items
          (if here then cancel_timer id (fail_close id reason now e) else e) in
      (if here then suc n else n, e')

  unfoldable pub fail_close_workspace : Text → Reason → ℕ → Engine → ℕ × Engine
  unfolding close_all_of
  fail_close_workspace w reason now e = close_all_of w reason now e.holds e

  -- `on_workspace_stop`; `none` where `clear_tilrestart` raises
  unfoldable pub on_workspace_stop : Text → ℕ → M (Unit {0})
  unfolding fail_close_workspace
  on_workspace_stop w now = do
    modify (λ e. (fail_close_workspace w (because (codes "stopped")) now e).1)
    modify (λ e. record e { session = Session.clear e.session w })
    call raises tilrestart_clear
    on_rows (λ rows. let (n, rows') = clear_tilrestart w rows in (tt, rows'))

  unfoldable pub stop_from : Dict Text Text → ℕ → Engine → Engine
  unfolding fail_close
  stop_from [] now e = e
  stop_from ((id, w) ∷ items) now e =
      stop_from items now (cancel_timer id (fail_close id (because (codes "shutdown")) now e))

  -- `stop`
  unfoldable pub stop : ℕ → Engine → Engine
  unfolding stop_from
  stop now e = stop_from e.holds now e
