-- ===== src/Consent/Session.antt =====
-- `SessionMemory` of src/msks/msks/consent/coordinator.py: for each workspace, the verdicts that
-- cover a name on a port, or on all ports (`none`), each until a time. `now` is `time.time()` in
-- milliseconds.
pub mod Cover
pub mod Store
pub mod Times
pub mod Ports
use msks.Prelude.{
  ℕ, ◌+◌, ◌-◌, Bool, true, false, not, ◌&&◌, ◌||◌, Option, none, some, List, [], ◌∷◌, Text, text_eq,
  text_eq_iff, ltb, leb, ◌==◌, opt_eq, opt_eq_iff, if◌then◌else◌, filter, ◌≡◌, ◌↔◌, arith, max, min,
}
use msks.Prelude.Dict.{Eq, Dict, get, put, remove, text_key}
use msks.Egress.Policy.{add_port}

-- `(host, port or None)`
abbrev pub Dest : Type 0
Dest = Text × Option ℕ

abbrev pub dest_beq : Dest → Dest → Bool
dest_beq a b = text_eq a.0 b.0 && opt_eq a.1 b.1

pub dest_beq_iff : (a b : Dest) → (dest_beq a b ≡ true) ↔ (a ≡ b)
dest_beq_iff (h, p) (k, q) = ground (arith, text_eq_iff h k, opt_eq_iff p q)

instance abbrev pub dest_key : Eq Dest
dest_key = record { beq = dest_beq; beq_iff = dest_beq_iff }

abbrev pub Entries : Type 0
Entries = Dict Dest ℕ

abbrev pub Memory : Type 0
Memory = Dict Text Entries

pub record SessionMemory : Type 0 where
  pub allows : Memory
  pub denies : Memory

abbrev pub empty : SessionMemory
empty = record { allows = []; denies = [] }

-- `table.get(workspace_id, {})`
abbrev pub or_empty : Option Entries → Entries
or_empty none = []
or_empty (some entries) = entries

unfoldable pub entries_of : Text → Memory → Entries
entries_of workspace_id table = or_empty (get workspace_id table)

-- `max` and `min` over the values there are
abbrev pub max_opt : Option ℕ → Option ℕ → Option ℕ
max_opt none b = b
max_opt (some a) none = some a
max_opt (some a) (some b) = some (max a b)

abbrev pub min_opt : Option ℕ → Option ℕ → Option ℕ
min_opt none b = b
min_opt (some a) none = some a
min_opt (some a) (some b) = some (min a b)

-- `entry_port in (None, port)`
abbrev pub covers_port : Option ℕ → ℕ → Bool
covers_port none port = true
covers_port (some p) port = p == port

abbrev pub remaining : Bool → ℕ → ℕ → Option ℕ
remaining fits expire now = if ltb now expire && fits then some (expire - now) else none

unfoldable pub matches : Entries → Text → ℕ → ℕ → Option ℕ
matches [] host port now = none
matches (((entry_host, entry_port), expire) ∷ entries) host port now =
    max_opt (remaining (text_eq entry_host host && covers_port entry_port port) expire now)
      (matches entries host port now)

unfoldable pub allow_ttl : SessionMemory → Text → Text → ℕ → ℕ → Option ℕ
unfolding entries_of
allow_ttl s workspace_id host port now = matches (entries_of workspace_id s.allows) host port now

unfoldable pub deny_ttl : SessionMemory → Text → Text → ℕ → ℕ → Option ℕ
unfolding entries_of
deny_ttl s workspace_id host port now = matches (entries_of workspace_id s.denies) host port now

pub min_remaining : Entries → Text → ℕ → Option ℕ
min_remaining [] host now = none
min_remaining (((entry_host, entry_port), expire) ∷ entries) host now =
    min_opt (remaining (text_eq entry_host host) expire now) (min_remaining entries host now)

unfoldable pub min_allow_ttl : SessionMemory → Text → Text → ℕ → Option ℕ
unfolding min_remaining entries_of
min_allow_ttl s workspace_id host now = min_remaining (entries_of workspace_id s.allows) host now

-- the loop of `allow_ports` with the set so far
pub collect_ports : Entries → Text → ℕ → List ℕ → Option (List ℕ)
collect_ports [] host now ports = some ports
collect_ports (((entry_host, entry_port), expire) ∷ entries) host now ports =
    elim (leb expire now || not (text_eq entry_host host)) [
      | true ↦ collect_ports entries host now ports
      | false ↦ elim entry_port [
        | none ↦ none
        | some p ↦ collect_ports entries host now (add_port p ports)
      ]
    ]

unfoldable pub allow_ports : SessionMemory → Text → Text → ℕ → Option (List ℕ)
unfolding collect_ports entries_of
allow_ports s workspace_id host now = collect_ports (entries_of workspace_id s.allows) host now []

abbrev pub or_zero : Option ℕ → ℕ
or_zero none = 0
or_zero (some a) = a

-- one entry added or refreshed
unfoldable pub refresh : Dest → ℕ → Entries → Entries
refresh key expire entries = put key (max (or_zero (get key entries)) expire) entries

unfoldable pub remember : Memory → Text → Text → Option ℕ → ℕ → ℕ → Memory
unfolding entries_of refresh
remember table workspace_id host port ttl now =
    put workspace_id (refresh (host, port) (now + ttl) (entries_of workspace_id table)) table

unfoldable pub allow : SessionMemory → Text → Text → Option ℕ → ℕ → ℕ → SessionMemory
unfolding remember
allow s workspace_id host port ttl now = record s {
  allows = remember s.allows workspace_id host port ttl now;
}

unfoldable pub deny : SessionMemory → Text → Text → Option ℕ → ℕ → ℕ → SessionMemory
unfolding remember
deny s workspace_id host port ttl now = record s {
  denies = remember s.denies workspace_id host port ttl now;
}

abbrev pub without_host : Text → Entries → Entries
without_host host = filter (λ item. not (text_eq item.0.0 host))

pub forget_in : Memory → Text → Text → Memory
forget_in table workspace_id host = elim (get workspace_id table) [
  | none ↦ table
  | some entries ↦ put workspace_id (without_host host entries) table
]

unfoldable pub forget : SessionMemory → Text → Text → SessionMemory
unfolding forget_in
forget s workspace_id host = record {
  allows = forget_in s.allows workspace_id host;
  denies = forget_in s.denies workspace_id host;
}

unfoldable pub clear : SessionMemory → Text → SessionMemory
clear s workspace_id = record {
  allows = remove workspace_id s.allows;
  denies = remove workspace_id s.denies;
}
