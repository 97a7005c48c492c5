-- ===== src/Net/Forwarder.antt =====
-- `DnsForwarder` of src/msks/msks/net/dns.py: the naming memory, the answer cache and the order of
-- the relay. Times are milliseconds, and a call that runs in one piece reads the clock once. The
-- sockets and the exchange with the upstream are I/O; what they bring is an argument.
pub mod Pairings
pub mod Shared
pub mod Cached
pub mod Relay
use msks.Prelude.{
  ℕ, ◌+◌, ◌*◌, Bool, true, false, not, ◌&&◌, Option, none, some, List, [], ◌∷◌, ◌++◌, Text, ltb,
  leb, if◌then◌else◌, length, filter, any, text_eq, max, mem_text,
}
use msks.Prelude.Dict.{Dict, get, put, remove, text_key}
use msks.Net.Bytes.{Bytes}
use msks.Net.Dnsmsg.{Record}

-- 30 and 5 seconds
abbrev pub name_ttl_floor : ℕ
name_ttl_floor = 30000

abbrev pub cache_ttl_floor : ℕ
cache_ttl_floor = 5000

abbrev pub cache_max : ℕ
cache_max = 512

abbrev pub names_max : ℕ
names_max = 4096

-- the pairings of one address: a name and its expiry, the most recent last
abbrev pub Pairings : Type 0
Pairings = List (Text × ℕ)

abbrev pub Names : Type 0
Names = Dict Text Pairings

abbrev pub Cache : Type 0
Cache = Dict Bytes (Bytes × ℕ)

pub record Forwarder : Type 0 where
  pub cache : Cache
  pub names : Names

abbrev pub or_nil : Option Pairings → Pairings
or_nil none = []
or_nil (some entries) = entries

-- the live pairings of an address
unfoldable pub live : ℕ → Text → Names → Pairings
live now ip names = filter (λ e. ltb now e.1) (or_nil (get ip names))

abbrev pub store_live : Text → Pairings → Names → Names
store_live ip [] names = remove ip names
store_live ip (e ∷ entries) names = put ip (e ∷ entries) names

-- the memory after the sweep of `live_names`
unfoldable pub swept : ℕ → Text → Names → Names
unfolding live
swept now ip names = store_live ip (live now ip names) names

unfoldable pub live_names : ℕ → Text → Forwarder → Pairings × Forwarder
unfolding swept
live_names now ip f = (live now ip f.names, record f { names = swept now ip f.names })

abbrev pub last_name : Pairings → Option Text
last_name [] = none
last_name (e ∷ []) = some e.0
last_name (e ∷ d ∷ entries) = last_name (d ∷ entries)

unfoldable pub host_for : ℕ → Text → Forwarder → Option Text × Forwarder
unfolding live_names
host_for now ip f = (last_name (live_names now ip f).0, (live_names now ip f).1)

abbrev pub names_it : ℕ → Text → Pairings → Bool
names_it now host = any (λ e. text_eq e.0 host && ltb now e.1)

unfoldable pub ips_in : ℕ → Text → Names → List Text
ips_in now host [] = []
ips_in now host ((ip, entries) ∷ names) =
    let rest = ips_in now host names in if names_it now host entries then ip ∷ rest else rest

unfoldable pub ips_for : ℕ → Text → Forwarder → List Text
unfolding ips_in
ips_for now host f = ips_in now host f.names

-- `{name for name, _expire in entries}`, without repetition
unfoldable pub name_set : Pairings → List Text
name_set [] = []
name_set (e ∷ entries) =
    let rest = name_set entries in if mem_text e.0 rest then rest else e.0 ∷ rest

unfoldable pub shared : ℕ → Text → Forwarder → Bool × Forwarder
unfolding live_names name_set
shared now ip f = (ltb 1 (length (name_set (live_names now ip f).0)), (live_names now ip f).1)

abbrev pub others : Text → Pairings → Pairings
others host = filter (λ e. not (text_eq e.0 host))

abbrev pub keep : Text → Pairings → Names → Names
keep ip [] kept = kept
keep ip (e ∷ entries) kept = (ip, e ∷ entries) ∷ kept

unfoldable pub forget_in : Text → Names → Names
forget_in host [] = []
forget_in host ((ip, entries) ∷ names) = keep ip (others host entries) (forget_in host names)

unfoldable pub forget : Text → Forwarder → Forwarder
unfolding forget_in
forget host f = record { cache = []; names = forget_in host f.names }

-- the greatest expiry of the name's pairings, 0 where it has none
unfoldable pub prior : Text → Pairings → ℕ
prior name [] = 0
prior name (e ∷ entries) =
    let rest = prior name entries in if text_eq e.0 name then max e.1 rest else rest

-- `floor` is the expiry that `remember` starts from.
unfoldable pub pairing_floor : ℕ → Names → Text → ℕ → ℕ → Text → ℕ
unfolding prior
pairing_floor now names ip ttl floor name =
    max (prior name (or_nil (get ip names)))
      (if ltb name_ttl_floor (ttl * 1000) then now + ttl * 1000 else floor)

abbrev pub has_name : Text → Pairings → Bool
has_name name = any (λ e. text_eq e.0 name)

abbrev pub some_entry : Pairings → Bool
some_entry [] = false
some_entry (e ∷ entries) = true

unfoldable pub remember_one : ℕ → Text → Text → ℕ → ℕ → Names → Bool × Names
unfolding swept pairing_floor
remember_one now ip name ttl expire names =
    let entries = live now ip names in
    let floor = pairing_floor now (swept now ip names) ip ttl expire name in
    (
      some_entry entries && not (has_name name entries),
      put ip (others name entries ++ (name, floor) ∷ []) (swept now ip names),
    )

abbrev pub noted : Text → Bool → List Text → List Text
noted ip true rest = ip ∷ rest
noted ip false rest = rest

-- The loop of `remember`: the addresses that became shared, and the memory.
unfoldable pub remember_all : ℕ → ℕ → Text → List Record → Names → List Text × Names
unfolding remember_one
remember_all now expire name [] names = ([], names)
remember_all now expire name ((ip, ttl) ∷ found) names =
    let (fresh, names') = remember_one now ip name ttl expire names in
    let (rest, after) = remember_all now expire name found names' in (noted ip fresh rest, after)

-- The wholesale clear of a memory at its bound.
abbrev pub bounded {ℓ} : {A : Type ℓ} → ℕ → List A → List A
bounded most entries = if leb most (length entries) then [] else entries

unfoldable pub remember : ℕ → Text → List Record → Forwarder → List Text × Forwarder
unfolding remember_all
remember now name found f =
    let (fresh, names) =
      remember_all now (now + name_ttl_floor) name found (bounded names_max f.names) in
    (fresh, record f { names = names })
