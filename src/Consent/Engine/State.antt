-- ===== src/Consent/Engine/State.antt =====
-- The state of `ConsentEngine` (src/msks/msks/consent/coordinator.py). A method that calls the model is an
-- action that may raise; what was written before a raise stays written. `raises` says which calls
-- of the model raise. `now` is the time that the call reads.
use msks.Prelude.{ℕ, Bool, Option, none, some, List, [], ◌∷◌, ◌++◌, Text, if◌then◌else◌}
use msks.Prelude.Dict.{Dict, text_key}
use msks.Egress.Policy.{Mode, WorkspaceRow}
use msks.Egress.Lifecycle.{Decision}
use msks.Consent.Row.{EgressConsent}
use msks.Consent.Rows.{Table}
use msks.Consent.Session.{SessionMemory}
use msks.Consent.Deciders.{Registry}
use msks.Consent.Verdict.{Verdict}

-- The frames that deciders see.
pub data Frame : Type 0 where
  request : Text → EgressConsent → ℕ → Frame
  resolved : Text → Text → Decision → Frame
  rules : Text → Mode → List Text → List EgressConsent → List EgressConsent → Frame

-- `holds` maps a request to its workspace; `timers` are the requests whose timeout task is live;
-- `answers` are the results of the futures, by request. `cleared` are the destinations whose
-- enforcement was dropped.
pub record Engine : Type 0 where
  pub workspaces : Dict Text WorkspaceRow
  pub rows : Table
  pub holds : Dict Text Text
  pub timers : List Text
  pub answers : Dict Text Verdict
  pub session : SessionMemory
  pub deciders : Registry
  pub frames : List Frame
  pub cleared : List (Text × Text × ℕ)
  pub timeout : ℕ
  pub rate_limit : ℕ

-- The calls of the model that may raise.
pub data Call : Type 0 where
  get_workspace policy_record pending_test pending_count row_insert row_decide row_expire : Call
  row_read row_revoke active_list tilrestart_clear requests_list : Call

-- `none` is an exception.
abbrev pub M {ℓ} : Type ℓ → Type ℓ
M A = Engine → Option A × Engine

module _ {ℓ} {A B : Type ℓ} where
  abbrev pub continue : Option A × Engine → (A → M B) → Option B × Engine
  continue (none, e) f = (none, e)
  continue (some a, e) f = f a e

  infixl 5 ◌>>=◌ ◌>>◌
  abbrev pub ◌>>=◌ : M A → (A → M B) → M B
  ◌>>=◌ m f e = continue (m e) f

  abbrev pub ◌>>◌ : M A → M B → M B
  m >> k = m >>= λ _. k

abbrev pub pure {ℓ} : {A : Type ℓ} → A → M A
pure a e = (some a, e)

abbrev pub gets {ℓ} : {A : Type ℓ} → (Engine → A) → M A
gets f e = (some (f e), e)

abbrev pub modify : (Engine → Engine) → M (Unit {0})
modify f e = (some tt, f e)

-- A write of the model: its result, and the new table.
abbrev pub on_rows {ℓ} : {A : Type ℓ} → (Table → A × Table) → M A
on_rows f e = let (a, rows) = f e.rows in (some a, record e { rows = rows })

-- `try: m; except Exception: a`
abbrev pub or_value {ℓ} : {A : Type ℓ} → Option A × Engine → A → Option A × Engine
or_value (none, e) a = (some a, e)
or_value (some b, e) a = (some b, e)

abbrev pub catching {ℓ} : {A : Type ℓ} → M A → A → M A
catching m a e = or_value (m e) a

abbrev pub publish : Frame → M (Unit {0})
publish frame = modify (λ e. record e { frames = e.frames ++ frame ∷ [] })

-- What `hold` returns: a future that is resolved already, or the future of a held request.
pub data Outcome : Type 0 where
  answered : Verdict → Outcome
  held : Text → Outcome

unfoldable pub call : (Call → Bool) → Call → M (Unit {0})
call raises c e = if raises c then (none, e) else (some tt, e)
