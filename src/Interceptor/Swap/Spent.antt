-- ===== src/Interceptor/Swap/Spent.antt =====
-- When the swap of src/msks/msks/interceptor/engine.py spends a secret, and on whom.
use msks.Prelude.{
  Text, ℕ, Bool, Option, true, false, not, ◌&&◌, ◌||◌, none, some, List, [], ◌∷◌, ◌≡◌, ◌⊎◌,
  if◌then◌else◌, any, all, text_eq, lower, starts_with, ends_with,
}
use msks.Interceptor.Swap.{
  Entry, Request, Fetched, locked, no_value, served, Outcome, passed, sighted, swapped, refused,
}
use msks.Interceptor.Swap.Replaced.{AreReplaced, first_carried}

-- The name that a request is aimed at.
abbrev pub aimed_at : Request → Text
aimed_at r = if text_eq r.sni [] then r.pretty_host else r.sni

-- An allowlist has the name, or a suffix of it that starts with a dot, in any case of letters.
abbrev pub is_listed : Text → List Text → Bool
is_listed host dests =
    any
      (λ dest.
        text_eq (lower host) (lower dest)
        || (starts_with (lower dest) (b'.' ∷ []) && ends_with (lower host) (lower dest)))
      dests

-- The request carries the sentinel of an entry, and the entry's allowlist has the destination.
abbrev pub IsCovered : List Entry → Request → Entry → Type 0
IsCovered entries r entry =
    (first_carried entries r ≡ some entry) × (is_listed (aimed_at r) entry.dests ≡ true)

-- No entry has an empty sentinel.
abbrev pub HaveSentinels : List Entry → Type 0
HaveSentinels entries = all (λ e. not (text_eq e.sentinel [])) entries ≡ true

module _ (hostport : Text → Text → ℕ → Text) (live : Text → Option Bool)
    (fetch : Entry → Option Fetched) where
  -- The secret stands for the sentinel in every header field and query pair, and the request is bound to
  -- its destination: its host header over TLS, its upstream host without.
  abbrev pub IsSwapped : Request → Text → Text → Request → Type 0
  IsSwapped r sentinel secret after =
      AreReplaced sentinel secret r.headers after.headers
      × AreReplaced sentinel secret r.query after.query
      × ((r.tls ≡ true)
            × (after.host_header ≡ some (hostport r.scheme (aimed_at r) r.port))
            × (after.host ≡ r.host)
          ⊎ ((r.tls ≡ false) × (after.host ≡ aimed_at r)))

  -- What each outcome says of the request.
  abbrev pub Explains : List Entry → Request → Outcome → Type 0
  Explains entries r (swapped after) =
      (entry : Entry) × (secret : Text) × IsCovered entries r entry
      × (live entry.sentinel ≡ some true)
      × (fetch entry ≡ some (served secret))
      × IsSwapped r entry.sentinel secret after
  Explains entries r (refused status) =
      (entry : Entry) × IsCovered entries r entry
      × (((status ≡ 423) × (live entry.sentinel ≡ some true) × (fetch entry ≡ some locked))
          ⊎ ((status ≡ 502)
              × ((live entry.sentinel ≡ none)
                  ⊎ ((live entry.sentinel ≡ some true) × (fetch entry ≡ none)))))
  Explains entries r (sighted entry name) =
      (first_carried entries r ≡ some entry)
      × (name ≡ aimed_at r)
      × (is_listed name entry.dests ≡ false)
  Explains entries r passed =
      (first_carried entries r ≡ none)
      ⊎ ((entry : Entry) × IsCovered entries r entry
          × ((live entry.sentinel ≡ some false)
              ⊎ ((live entry.sentinel ≡ some true) × (fetch entry ≡ some no_value))))
