-- ===== src/Interceptor/Swap.antt =====
-- The swap of a secret for its sentinel, src/msks/msks/interceptor/engine.py. Header fields and query pairs are
-- pairs of texts. `live` says whether the sentinel's row is live and `fetch` what the store serves;
-- `none` is an exception.
pub mod Replaced
pub mod Spent
use msks.Prelude.{
  Text, ℕ, Bool, Option, any, lower, starts_with, ends_with, text_eq, length, map, zero, suc, ◌-◌,
  true, false, not, ◌&&◌, ◌||◌, none, some, List, [], ◌∷◌, ◌++◌, if◌then◌else◌,
}

pub record Entry : Type 0 where
  pub name : Text
  pub sentinel : Text
  pub dests : List Text

abbrev pub Pairs : Type 0
Pairs = List (Text × Text)

-- What the swap reads and writes of a request; `tls` is whether the guest's connection is TLS. `headers` are
-- all its fields. That the library also sets the `Host` field where `host` or `host_header` is
-- assigned is not modelled: the two are fields of their own here.
pub record Request : Type 0 where
  pub headers : Pairs
  pub query : Pairs
  pub sni : Text
  pub pretty_host : Text
  pub tls : Bool
  pub scheme : Text
  pub port : ℕ
  pub host : Text
  pub host_header : Option Text

-- one entry of an allowlist
abbrev pub dest_matches : Text → Text → Bool
dest_matches host dest = text_eq host dest || (starts_with dest (b'.' ∷ []) && ends_with host dest)

unfoldable pub host_matches : Text → List Text → Bool
host_matches host dests = any (λ dest. dest_matches (lower host) (lower dest)) dests

abbrev pub or_pretty : Text → Text → Text
or_pretty [] pretty = pretty
or_pretty (c ∷ sni) pretty = c ∷ sni

unfoldable pub destination_name : Request → Text
destination_name r = or_pretty r.sni r.pretty_host

-- `needle in text`
unfoldable pub contains_text : Text → Text → Bool
contains_text needle [] = starts_with [] needle
contains_text needle (c ∷ t) = starts_with (c ∷ t) needle || contains_text needle t

-- the rest of `text.replace(needle, new)`; `skip` characters belong to an occurrence that is replaced
unfoldable pub replace_from : ℕ → Text → Text → Text → Text
replace_from skip needle new [] = []
replace_from (suc skip) needle new (c ∷ t) = replace_from skip needle new t
replace_from zero needle new (c ∷ t) = elim (starts_with (c ∷ t) needle) [
  | true ↦ new ++ replace_from (length needle - 1) needle new t
  | false ↦ c ∷ replace_from zero needle new t
]

-- `text.replace(needle, new)` of a needle that is not empty
abbrev pub replace : Text → Text → Text → Text
replace needle new text = replace_from 0 needle new text

abbrev pub rides : Text → Pairs → Bool
rides sentinel pairs = any (λ p. contains_text sentinel p.0 || contains_text sentinel p.1) pairs

-- `sentinel_in_headers(…) or sentinel_in_query(…)`
unfoldable pub carries : Text → Request → Bool
unfolding contains_text
carries sentinel r = rides sentinel r.headers || rides sentinel r.query

unfoldable pub carried_entry : List Entry → Request → Option Entry
unfolding carries
carried_entry [] r = none
carried_entry (e ∷ entries) r =
    let rest = carried_entry entries r in if carries e.sentinel r then some e else rest

abbrev pub swap_pairs : Text → Text → Pairs → Pairs
swap_pairs sentinel secret = map (λ p. (replace sentinel secret p.0, replace sentinel secret p.1))

unfoldable pub rewrite_request : Text → Text → Request → Request
unfolding replace_from
rewrite_request sentinel secret r = record r {
  headers = swap_pairs sentinel secret r.headers;
  query = swap_pairs sentinel secret r.query;
}

-- `SecretLockedError`, a value, or no value
pub data Fetched : Type 0 where
  locked no_value : Fetched
  served : Text → Fetched

-- What becomes of a request: it goes on as it is; it goes on as it is and a sighting is published; it
-- goes on with the secret; or the guest gets a local answer with a status.
pub data Outcome : Type 0 where
  passed : Outcome
  sighted : Entry → Text → Outcome
  swapped : Request → Outcome
  refused : ℕ → Outcome

module _ (hostport : Text → Text → ℕ → Text) (live : Text → Option Bool)
    (fetch : Entry → Option Fetched) where
  unfoldable pub pin_destination : Text → Request → Request
  pin_destination name r =
      if r.tls
      then record r { host_header = some (hostport r.scheme name r.port) }
      else record r { host = name }

  -- `fetch_secret`, with `none` for an exception
  abbrev pub fetch_secret : Entry → Option Fetched
  fetch_secret entry = elim (live entry.sentinel) [
    | none ↦ none
    | some b ↦ if b then fetch entry else some no_value
  ]

  -- what the flow gets for what was fetched
  unfoldable pub spend : Option Fetched → Entry → Text → Request → Outcome
  unfolding rewrite_request pin_destination
  spend none entry name r = refused 502
  spend (some locked) entry name r = refused 423
  spend (some no_value) entry name r = passed
  spend (some (served secret)) entry name r =
      swapped (pin_destination name (rewrite_request entry.sentinel secret r))

  unfoldable pub swap_on_flow : Entry → Text → Request → Outcome
  unfolding spend
  swap_on_flow entry name r = spend (fetch_secret entry) entry name r

  abbrev pub swap_entry : Option Entry → Request → Outcome
  swap_entry none r = passed
  swap_entry (some entry) r =
      let name = destination_name r in
      if not (host_matches name entry.dests) then sighted entry name else swap_on_flow entry name r

  unfoldable pub swap_or_announce : List Entry → Request → Outcome
  unfolding carried_entry destination_name host_matches swap_on_flow
  swap_or_announce entries r = swap_entry (carried_entry entries r) r
