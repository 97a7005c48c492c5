-- ===== src/Tests/SwapRuns.antt =====
-- Runs of src/msks/msks/interceptor/engine.py.
use msks.Prelude.{
  any, starts_with, text_eq, lower, ends_with, false, List, Text, ℕ, Bool, Option, codes, true,
  none, some, [], ◌∷◌, ◌≡◌, refl,
}
use msks.Interceptor.Swap.{
  destination_name, Entry, Request, Fetched, served, locked, refused, swapped, swap_or_announce,
  carried_entry, spend,
}
use msks.Interceptor.Hooks.{Asked, denied, key_of, requests}
use msks.Interceptor.Hooks.{request as hook}
use msks.Interceptor.Hooks.Kept.{opened, request-expected}

abbrev entry : Entry
entry = record { name = codes "token"; sentinel = codes "s-1"; dests = codes ".Example.com" ∷ [] }

abbrev request : Request
request = record {
  headers = (codes "Authorization", codes "Bearer s-1") ∷ [];
  query = [];
  sni = codes "api.example.com";
  pretty_host = codes "other.net";
  tls = true;
  scheme = codes "https";
  port = 443;
  host = codes "10.0.0.9";
  host_header = some (codes "other.net");
}

abbrev hostport : Text → Text → ℕ → Text
hostport scheme host port = host

abbrev live : Text → Option Bool
live sentinel = some true

abbrev fetch : Entry → Option Fetched
fetch e = some (served (codes "k"))

-- The secret replaces the sentinel, and the host header is that of the handshake.
swapped_run :
    swap_or_announce hostport live fetch (entry ∷ []) request
    ≡ swapped (record request {
      headers = (codes "Authorization", codes "Bearer k") ∷ [];
      host_header = some (codes "api.example.com");
    })
unfolding swap_or_announce carried_entry any starts_with text_eq lower ends_with spend
swapped_run = refl

-- A locked store.
locked_run : swap_or_announce hostport live (λ e. some locked) (entry ∷ []) request ≡ refused 423
unfolding swap_or_announce carried_entry any starts_with text_eq lower ends_with spend
locked_run = refl

-- A request that the gate answers with a verdict.
abbrev asked : Bool → Text → Asked
asked allowed reason = record {
  workspace = some (codes "ws");
  request = record request { tls = false };
  port = 80;
  verdict = record { allowed = allowed; reason = reason };
  entries = entry ∷ [];
  live = live;
  fetch = fetch;
}

-- A pending answer, a denial and an allow: the denial stands.
abbrev before : List Asked
before = asked false (codes "duplicate") ∷ asked false (codes "verdict") ∷ []

request-expected_example :
    (hook hostport
      (requests hostport (opened hostport none) before)
      (asked true (codes "decided"))).1
    ≡ denied (codes "verdict")
unfolding key_of destination_name text_eq lower
request-expected_example = request-expected hostport none before (asked true (codes "decided"))
