-- ===== src/Interceptor/Hooks.antt =====
-- The consent tier of the proxy's request hook, src/msks/msks/interceptor/engine.py, on one connection: the
-- marker of the hello gate, the answers kept for the connection, and the swap behind them. What the
-- gate answers to a request is part of the request here.
pub mod Kept
use msks.Prelude.{
  Text, ℕ, Bool, Option, codes, lower, text_eq, text_eq_iff, ◌==◌, ==_iff, true, false, not, ◌&&◌,
  none, some, List, [], ◌∷◌, ◌≡◌, ◌↔◌, ap, arith, if◌then◌else◌,
}
use msks.Prelude.Dict.{Eq, Dict, get, put}
use msks.Interceptor.Swap.{Entry, Request, Fetched, Outcome, destination_name, swap_or_announce}

-- `WebVerdict`, with the reason as the text that it is
pub record Verdict : Type 0 where
  pub allowed : Bool
  pub reason : Text

abbrev pub Key : Type 0
Key = Text × ℕ

abbrev pub key_eq : Key → Key → Bool
key_eq a b = text_eq a.0 b.0 && (a.1 == b.1)

-- The two tables at one connection: `_denied` and `_per_connection`.
pub record Connection : Type 0 where
  pub marker : Option Text
  pub answers : Dict Key Verdict

-- One request: the workspace of its tap, the port that the guest aimed at, what the gate would
-- answer, and what the workspace holds of secrets.
pub record Asked : Type 0 where
  pub workspace : Option Text
  pub request : Request
  pub port : ℕ
  pub verdict : Verdict
  pub entries : List Entry
  pub live : Text → Option Bool
  pub fetch : Entry → Option Fetched

-- What becomes of a request: nothing, a local 403 with its reason, or the swap's outcome.
pub data Served : Type 0 where
  untouched : Served
  denied : Text → Served
  handled : Outcome → Served

abbrev pub is_duplicate : Text → Bool
is_duplicate reason = text_eq reason (codes "duplicate")

abbrev pub reason_of : Verdict → Option Text
reason_of v = if v.allowed then none else some v.reason

abbrev pub or_error : Option Text → Option Text
or_error none = none
or_error (some []) = some (codes "error")
or_error (some (c ∷ reason)) = some (c ∷ reason)

unfoldable pub denial : Connection → Option Text
denial conn = or_error conn.marker

unfoldable pub refuse_client : Connection → Verdict → Connection × Bool
refuse_client conn verdict =
    if verdict.allowed then (conn, false) else (record conn { marker = some verdict.reason }, true)

unfoldable pub key_of : Asked → Key
unfolding destination_name
key_of a = (lower (destination_name a.request), a.port)

pub key_eq_iff : (a b : Key) → (key_eq a b ≡ true) ↔ (a ≡ b)
key_eq_iff (a, p) (b, q) = (
  ground (arith, text_eq_iff a b, ==_iff p q),
  λ h. ground (arith, h, text_eq_iff a b, ==_iff p q, ap (λ k. k.0) h, ap (λ k. k.1) h),
)

instance abbrev pub key_key : Eq Key
key_key = record { beq = key_eq; beq_iff = key_eq_iff }

abbrev pub gated_by : Option Verdict → Connection → Asked → Connection × Option Text
gated_by (some cached) conn a = (conn, reason_of cached)
gated_by none conn a = (
  if is_duplicate a.verdict.reason
      then conn
      else record conn { answers = put (key_of a) a.verdict conn.answers },
  reason_of a.verdict,
)

unfoldable pub gated : Connection → Asked → Connection × Option Text
unfolding get put key_of
gated conn a = gated_by (get (key_of a) conn.answers) conn a

abbrev pub refused_by : Option Text → Connection → Asked → Connection × Option Text
refused_by none conn a = if a.request.tls then (conn, none) else gated conn a
refused_by (some marked) conn a =
    if not (is_duplicate marked) then (conn, some marked) else gated conn a

unfoldable pub refused : Connection → Asked → Connection × Option Text
unfolding denial gated
refused conn a = refused_by (denial conn) conn a

module _ (hostport : Text → Text → ℕ → Text) where
  abbrev pub answer : Option Text → Asked → Served
  answer (some reason) a = denied reason
  answer none a = handled (swap_or_announce hostport a.live a.fetch a.entries a.request)

  abbrev pub answered : Connection × Option Text → Asked → Connection × Served
  answered p a = (p.0, answer p.1 a)

  abbrev pub request_in : Option Text → Connection → Asked → Connection × Served
  request_in none conn a = (conn, untouched)
  request_in (some workspace) conn a = answered (refused conn a) a

  unfoldable pub request : Connection → Asked → Connection × Served
  unfolding refused swap_or_announce
  request conn a = request_in a.workspace conn a

  -- the requests of a connection, one after the other
  unfoldable pub requests : Connection → List Asked → Connection
  unfolding request
  requests conn [] = conn
  requests conn (a ∷ asked) = requests (request conn a).0 asked
