-- ===== src/Tests/ConsentRuns.antt =====
-- The consent engine of src/msks/msks/consent/ on concrete states.
use msks.Prelude.{
  ◌+◌, Bool, false, not, ◌&&◌, ◌||◌, true, Option, none, some, List, [], ◌∷◌, Text, codes, text_eq,
  mem_text, text_eq_iff, count, any, find, if◌then◌else◌, ◌≡◌, refl, arith,
}
use msks.Prelude.Dict.{get, text_key}
use msks.Egress.Policy.{interactive}
use msks.Egress.Lifecycle.{pending, allowed, revoked, expired, is_pending, tilrestart}
use msks.Consent.Row.{EgressConsent, has_id, pending_at}
use msks.Consent.Rows.{has_pending, count_pending, update_where, pending_row}
use msks.Consent.Moves.{create_request, decide, revoke, expire_pending, expire_all_pending}
use msks.Consent.Moves.Lifecycle.{
  Becomes, Rowwise, is_accepted, is_settled, is_named, updates-Moved,
}
use msks.Consent.Moves.Recorded.{is_policy}
use msks.Consent.Moves.Steps.{creates, records, Reaches, start, next, write}
use msks.Consent.Moves.Dedup.{IsUnique, holds}
use msks.Consent.Moves.Unique.{Reaches-IsUnique}
use msks.Consent.Session
use msks.Consent.Session.{SessionMemory, dest_key, allow_ttl, deny_ttl, covers_port}
use msks.Consent.Session.Store.{IsMemory, IsMemory-empty, allow-IsMemory}
use msks.Consent.Session.Times.{raised, ttl-allow, ttl-deny}
use msks.Consent.Deciders.{has_decider, client_key}
use msks.Consent.Verdict.{Verdict, because, closed}
use msks.Consent.Engine.State.{Outcome, held, Engine, Call, get_workspace, policy_record}
use msks.Consent.Engine.Gate.{hold}
use msks.Consent.Engine.Closed.{passes, is_permitted, hold-passes}
use msks.Consent.Engine.History.{IsSound, here, step, resolves, times_out, stops, Reaches-IsSound}
use msks.Consent.Engine.Held.{IsHeld, hold-IsHeld}
use msks.Consent.Engine.Settle.{resolve, timeout_hold, stop, fail_close_workspace}
use msks.Consent.Engine.Committed.{verdict_of, is_committed}
use msks.Consent.Engine.Once.{Ended, IsOnce, resolve-Ended}
use msks.Consent.Engine.Teardown.{owns, is_key, stop_lem, fail_close_workspace_lem}

abbrev untagged : EgressConsent → Option Text
untagged row = none

abbrev never : Call → Bool
never c = false

abbrev ws : Text
ws = codes "w1"

abbrev host : Text
host = codes "example.com"

abbrev pending_request : EgressConsent
pending_request = record {
  id = codes "r1";
  workspace_id = ws;
  dest_host = host;
  dest_port = 443;
  decision = pending;
  duration = none;
  requested_at = 5;
  decided_at = none;
  decided_by = none;
  revoked_at = none;
  revoked_by = none;
  hmac = none;
}

-- One request is held.
abbrev waiting : Engine
waiting = record {
  workspaces = (ws, record { id = ws; egress_mode = some interactive; egress_allowlist = [] }) ∷ [];
  rows = pending_request ∷ [];
  holds = (codes "r1", ws) ∷ [];
  timers = codes "r1" ∷ [];
  answers = [];
  session = Session.empty;
  deciders = (1, ws ∷ []) ∷ [];
  frames = [];
  cleared = [];
  timeout = 30000;
  rate_limit = 5;
}

is_held : get (codes "r1") waiting.holds ≡ some ws
unfolding get text_eq
is_held = refl

waiting-IsOnce : IsOnce waiting
unfolding get mem_text
waiting-IsOnce = record {
  unanswered = λ j. ground arith;
  timed = λ j. ground (arith, text_eq_iff j (codes "r1"), text_eq_iff (codes "r1") j);
}

abbrev decided_waiting : Option Verdict × Engine
decided_waiting = resolve untagged never (codes "r1") allowed (codes "me") tilrestart 9 waiting

resolve-Ended_example :
    (decided_waiting.0
      ≡ some (
          verdict_of
            (is_committed untagged never (codes "r1") allowed tilrestart waiting)
            allowed
            tilrestart))
    × Ended
        (codes "r1")
        (verdict_of
          (is_committed untagged never (codes "r1") allowed tilrestart waiting)
          allowed
          tilrestart)
        waiting
        decided_waiting.1
resolve-Ended_example =
    resolve-Ended untagged never (codes "r1") (codes "me") ws allowed tilrestart 9 waiting is_held

abbrev refused : Option Outcome × Engine
refused = hold untagged never (codes "r2") ws host 80 9 waiting

hold-passes_example :
    (passes refused.0 ≡ (
      not (never get_workspace)
      && is_permitted (get ws waiting.workspaces)
      && not (never policy_record)))
    × ((not (passes refused.0) || any (is_policy ws host 80) refused.1.rows) ≡ true)
hold-passes_example = hold-passes untagged never (codes "r2") ws host 80 9 waiting

stop_lem_example :
    (get (codes "r1") (stop untagged never 9 waiting).holds ≡ none)
    × (get (codes "r1") (stop untagged never 9 waiting).answers ≡ (
        if is_key (codes "r1") waiting.holds
        then some (closed (because (codes "shutdown")))
        else get (codes "r1") waiting.answers))
stop_lem_example = stop_lem untagged never 9 waiting waiting-IsOnce (codes "r1")

abbrev stopped : Engine
stopped = (fail_close_workspace untagged never ws (because (codes "stopped")) 9 waiting).1

fail_close_workspace_lem_example :
    ((j : Text)
      → (get j stopped.holds ≡ (if owns ws j waiting then none else get j waiting.holds))
        × (get j stopped.answers ≡ (
            if owns ws j waiting
            then some (closed (because (codes "stopped")))
            else get j waiting.answers)))
    × IsOnce stopped
fail_close_workspace_lem_example =
    fail_close_workspace_lem untagged never ws (because (codes "stopped")) 9 waiting waiting-IsOnce

-- The memory after one allow of a name on port 443 for five minutes, at time 100.
abbrev one_allow : SessionMemory
one_allow = Session.allow Session.empty ws host (some 443) 300000 100

one_allow-IsMemory : IsMemory one_allow
one_allow-IsMemory = allow-IsMemory Session.empty ws host (some 443) 300000 100 IsMemory-empty

ttl-allow_example :
    (allow_ttl (Session.allow one_allow ws host none 900000 200) ws host 80 300
      ≡ raised
          (text_eq ws ws && text_eq host host && covers_port none 80)
          (200 + 900000)
          300
          (allow_ttl one_allow ws host 80 300))
    × (deny_ttl (Session.allow one_allow ws host none 900000 200) ws host 80 300
        ≡ deny_ttl one_allow ws host 80 300)
ttl-allow_example = ttl-allow one_allow ws ws host host 80 300 one_allow-IsMemory none 900000 200

ttl-deny_example :
    (deny_ttl (Session.deny one_allow ws host none 900000 200) ws host 80 300
      ≡ raised
          (text_eq ws ws && text_eq host host && covers_port none 80)
          (200 + 900000)
          300
          (deny_ttl one_allow ws host 80 300))
    × (allow_ttl (Session.deny one_allow ws host none 900000 200) ws host 80 300
        ≡ allow_ttl one_allow ws host 80 300)
ttl-deny_example = ttl-deny one_allow ws ws host host 80 300 one_allow-IsMemory none 900000 200

abbrev two_writes : List EgressConsent
two_writes =
    write untagged (records (codes "r2") allowed ws host 80 6)
      (write untagged (creates (codes "r1") ws host 443 5) [])

two_writes-Reaches : Reaches untagged two_writes
unfolding any write create_request has_id text_eq count pending_at holds find update_where
    pending_row
two_writes-Reaches =
    next (next start (creates (codes "r1") ws host 443 5) refl)
      (records (codes "r2") allowed ws host 80 6) (refl, refl)

Reaches-IsUnique_example : IsUnique two_writes
Reaches-IsUnique_example = Reaches-IsUnique untagged two_writes-Reaches

-- an idle workspace with a decider and room under the rate limit
abbrev idle : Engine
idle = record waiting { rows = []; holds = []; timers = [] }

holds_r2 : (hold untagged never (codes "r2") ws host 80 9 idle).0 ≡ some (held (codes "r2"))
unfolding hold create_request get text_eq has_decider any mem_text has_pending find count_pending
    count pending_at
holds_r2 = refl

hold-IsHeld_example :
    IsHeld
      (codes "r2")
      ws
      host
      80
      idle
      (hold untagged never (codes "r2") ws host 80 9 idle).1
      (codes "r2")
hold-IsHeld_example =
    hold-IsHeld untagged never (codes "r2") ws host 80 9 idle (codes "r2") holds_r2

updates-Moved_example :
    Rowwise
      (Becomes (is_accepted (codes "r1") allowed tilrestart) allowed)
      (pending_request ∷ [])
      (decide untagged (codes "r1") allowed (codes "me") tilrestart 9 (pending_request ∷ [])).1
    × Rowwise
        (Becomes (is_settled (codes "r1")) revoked)
        (pending_request ∷ [])
        (revoke untagged (codes "r1") (codes "me") 9 (pending_request ∷ [])).1
    × Rowwise
        (Becomes (is_named (codes "r1")) expired)
        (pending_request ∷ [])
        (expire_pending untagged (codes "r1") 9 (pending_request ∷ [])).1
    × Rowwise
        (Becomes (λ r. is_pending r.decision) expired)
        (pending_request ∷ [])
        (expire_all_pending untagged 9 (pending_request ∷ [])).1
updates-Moved_example =
    updates-Moved untagged (codes "r1") (codes "me") allowed tilrestart 9 (pending_request ∷ [])

-- the decision comes first, the timeout and the shutdown find no hold
Reaches-IsSound_example :
    IsSound waiting
      (stop untagged never 9 (timeout_hold untagged never (codes "r1") 9 decided_waiting.1))
Reaches-IsSound_example = Reaches-IsSound untagged never waiting _ waiting-IsOnce (
    step
      (step (step here (resolves (codes "r1") (codes "me") allowed tilrestart 9 waiting))
        (times_out (codes "r1") 9 decided_waiting.1))
      (stops 9 (timeout_hold untagged never (codes "r1") 9 decided_waiting.1)))
