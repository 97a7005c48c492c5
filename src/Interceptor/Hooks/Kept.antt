-- ===== src/Interceptor/Hooks/Kept.antt =====
-- Which answer of the gate stands for a request of a connection, of src/msks/msks/interceptor/engine.py.
use msks.Prelude.{
  Text, ℕ, Bool, Option, true, false, not, ◌&&◌, none, some, List, [], ◌∷◌, ◌≡◌, refl, ap, ◌∙◌,
  arith, is_none, if◌then◌else◌,
}
use msks.Prelude.Dict.{get, get-put}
use msks.Interceptor.Hooks.{
  Verdict, Key, key_eq, key_eq_iff, key_key, Connection, Asked, Served, untouched, is_duplicate,
  reason_of, or_error, denial, key_of, gated_by, gated, refused_by, refused, answer, request_in,
  request, requests,
}

-- Whether a request comes to the gate's answers: the hello denied nothing for good, and it did not let
-- a TLS connection through.
abbrev pub is_gated : Option Text → Asked → Bool
is_gated none a = not (is_none a.workspace) && not a.request.tls
is_gated (some marked) a = not (is_none a.workspace) && is_duplicate marked

-- Whether a request brings a final answer for a destination.
abbrev pub settles : Option Text → Key → Asked → Bool
settles marked key a =
    is_gated marked a && (key_eq (key_of a) key && not (is_duplicate a.verdict.reason))

-- The first final answer for a destination.
abbrev pub first_final : Option Text → Key → List Asked → Option Verdict
first_final marked key [] = none
first_final marked key (a ∷ asked) =
    if settles marked key a then some a.verdict else first_final marked key asked

abbrev pub or_else : Option Verdict → Verdict → Verdict
or_else none v = v
or_else (some w) v = w

abbrev pub first_of : Option Verdict → Option Verdict → Option Verdict
first_of none p = p
first_of (some w) p = some w

gated_by-answers :
    (key : Key) (conn : Connection) (a : Asked) (o : Option Verdict)
    → get (key_of a) conn.answers ≡ o
    → get key (gated_by o conn a).0.answers
      ≡ first_of (get key conn.answers) (
          if key_eq (key_of a) key && not (is_duplicate a.verdict.reason)
          then some a.verdict
          else none)
gated_by-answers key conn a (some c) e = ground (arith, e, key_eq_iff (key_of a) key)
gated_by-answers key conn a none e =
    ground (arith, e, key_eq_iff (key_of a) key, get-put (key_of a) key a.verdict conn.answers)

gated_by-marker :
    (o : Option Verdict) (conn : Connection) (a : Asked)
    → (gated_by o conn a).0.marker ≡ conn.marker
gated_by-marker (some c) conn a = refl
gated_by-marker none conn a = ground arith

refused_by-marker :
    (d : Option Text) (conn : Connection) (a : Asked) → (refused_by d conn a).0.marker ≡ conn.marker
unfolding gated
refused_by-marker none conn a = ground (arith, gated_by-marker (get (key_of a) conn.answers) conn a)
refused_by-marker (some m) conn a =
    ground (arith, gated_by-marker (get (key_of a) conn.answers) conn a)

first_of-none : (p : Option Verdict) → p ≡ first_of p none
first_of-none none = refl
first_of-none (some w) = refl

settles-none :
    (d : Option Text) (key : Key) (a : Asked) → a.workspace ≡ none → settles d key a ≡ false
settles-none none key a e = ground (arith, e)
settles-none (some m) key a e = ground (arith, e)

refused_by-answers :
    (key : Key) (conn : Connection) (a : Asked) (d : Option Text) {workspace : Text}
    → a.workspace ≡ some workspace
    → get key (refused_by d conn a).0.answers
      ≡ first_of (get key conn.answers) (if settles d key a then some a.verdict else none)
unfolding gated
refused_by-answers key conn a none e = ground (
  arith,
  e,
  first_of-none (get key conn.answers),
  gated_by-answers key conn a (get (key_of a) conn.answers) refl,
)
refused_by-answers key conn a (some m) e = ground (
  arith,
  e,
  first_of-none (get key conn.answers),
  gated_by-answers key conn a (get (key_of a) conn.answers) refl,
)

first_of-if :
    (b : Bool) (v : Verdict) (p q : Option Verdict)
    → first_of (first_of p (if b then some v else none)) q ≡ first_of p (if b then some v else q)
first_of-if true v none q = refl
first_of-if false v none q = refl
first_of-if b v (some w) q = refl

gated_by-reason :
    (o : Option Verdict) (conn : Connection) (a : Asked)
    → (gated_by o conn a).1 ≡ reason_of (or_else o a.verdict)
gated_by-reason none conn a = refl
gated_by-reason (some w) conn a = refl

refused_by-reason :
    (d : Option Text) (conn : Connection) (a : Asked) {workspace : Text}
    → a.workspace ≡ some workspace
    → (refused_by d conn a).1
      ≡ (if is_gated d a then reason_of (or_else (get (key_of a) conn.answers) a.verdict) else d)
unfolding gated
refused_by-reason none conn a e =
    ground (arith, e, gated_by-reason (get (key_of a) conn.answers) conn a)
refused_by-reason (some m) conn a e =
    ground (arith, e, gated_by-reason (get (key_of a) conn.answers) conn a)

module _ (hostport : Text → Text → ℕ → Text) where
  request_in-marker :
      (o : Option Text) (conn : Connection) (a : Asked)
      → (request_in hostport o conn a).0.marker ≡ conn.marker
  unfolding refused
  request_in-marker none conn a = refl
  request_in-marker (some workspace) conn a = refused_by-marker (denial conn) conn a

  request_in-answers :
      (key : Key) (conn : Connection) (a : Asked) (o : Option Text)
      → a.workspace ≡ o
      → get key (request_in hostport o conn a).0.answers
        ≡ first_of
            (get key conn.answers)
            (if settles (denial conn) key a then some a.verdict else none)
  unfolding refused
  request_in-answers key conn a none e =
      rw (settles-none (denial conn) key a e) (first_of-none (get key conn.answers))
  request_in-answers key conn a (some workspace) e = refused_by-answers key conn a (denial conn) e

  request-answers :
      (key : Key) (conn : Connection) (a : Asked)
      → get key (request hostport conn a).0.answers
        ≡ first_of
            (get key conn.answers)
            (if settles (denial conn) key a then some a.verdict else none)
  unfolding request
  request-answers key conn a = request_in-answers key conn a a.workspace refl

  request-denial :
      (conn : Connection) (a : Asked) → denial (request hostport conn a).0 ≡ denial conn
  unfolding request denial
  request-denial conn a = ap or_error (request_in-marker a.workspace conn a)

  requests-denial :
      (conn : Connection) (asked : List Asked) → denial (requests hostport conn asked) ≡ denial conn
  unfolding requests
  requests-denial conn [] = refl
  requests-denial conn (a ∷ asked) =
      requests-denial (request hostport conn a).0 asked ∙ request-denial conn a

  requests-answers :
      (key : Key) (conn : Connection) (asked : List Asked)
      → get key (requests hostport conn asked).answers
        ≡ first_of (get key conn.answers) (first_final (denial conn) key asked)
  unfolding requests
  requests-answers key conn [] = first_of-none (get key conn.answers)
  requests-answers key conn (a ∷ asked) =
      requests-answers key (request hostport conn a).0 asked
      ∙ rw (request-denial conn a, request-answers key conn a)
          (first_of-if (settles (denial conn) key a) a.verdict (get key conn.answers)
            (first_final (denial conn) key asked))

  -- a connection with the hello gate's marker and no request yet
  abbrev pub opened : Option Text → Connection
  opened marker = record { marker = marker; answers = [] }

  abbrev pub served_in : Option Text → Option Text → Asked → Served
  served_in none reason a = untouched
  served_in (some workspace) reason a = answer hostport reason a

  -- What a request gets after others, by the first final answer.
  abbrev pub expected : Option Text → List Asked → Asked → Served
  expected marked before a =
      served_in a.workspace
        (if is_gated marked a
          then reason_of (or_else (first_final marked (key_of a) before) a.verdict)
          else marked)
        a

  request_in-served :
      (conn : Connection) (a : Asked) (o : Option Text)
      → a.workspace ≡ o
      → (request_in hostport o conn a).1
        ≡ served_in o
            (if is_gated (denial conn) a
              then reason_of (or_else (get (key_of a) conn.answers) a.verdict)
              else denial conn)
            a
  unfolding refused
  request_in-served conn a none e = refl
  request_in-served conn a (some workspace) e =
      ap (λ reason. answer hostport reason a) (refused_by-reason (denial conn) conn a e)

  -- A connection keeps the gate's first final answer. For every marker of the hello gate and all the requests
  -- before, a request of a workspace gets the marker's denial where that is final, passes where the
  -- hello let a TLS connection through, and else gets the first answer for its lowercased name and
  -- its port, in the order of the requests, that is no `duplicate`, or its own gate's answer
  -- where no earlier one was final. A denial is a local 403 with that reason and no secret is looked
  -- up; a pass goes to the swap. A request from no workspace's tap stays as it is.
  pub request-expected :
      (marker : Option Text) (before : List Asked) (a : Asked)
      → (request hostport (requests hostport (opened marker) before) a).1
        ≡ expected (or_error marker) before a
  unfolding request get
  request-expected marker before a =
      request_in-served (requests hostport (opened marker) before) a a.workspace refl
      ∙ rw
          (
            requests-denial (opened marker) before,
            requests-answers (key_of a) (opened marker) before,
          )
          refl
