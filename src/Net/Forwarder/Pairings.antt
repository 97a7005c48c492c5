-- ===== src/Net/Forwarder/Pairings.antt =====
-- The naming memory of src/msks/msks/net/dns.py: what `remember` changes at an address, and for how
-- long an address has its newest name.
use msks.Prelude.{
  ℕ, ◌+◌, ◌≤◌, ◌<◌, Bool, true, false, ◌||◌, none, some, List, [], ◌∷◌, ◌++◌, Text, ◌≡◌, ◌⊎◌, refl,
  ap, inl, inr, arith, ltb, lt→ltb, if◌then◌else◌, Bool-cases, filter, any, text_eq,
}
use msks.Prelude.Dict.{get, get-put, get-remove, text_key}
use msks.Net.Dnsmsg.{Record}
use msks.Net.Forwarder.{
  Forwarder, Names, Pairings, or_nil, live, store_live, swept, live_names, last_name, host_for,
  others, pairing_floor, remember_one, remember_all, remember, bounded, names_max, name_ttl_floor,
}

get-store_live :
    (ip other : Text) (entries : Pairings) (names : Names)
    → or_nil (get other (store_live ip entries names))
      ≡ (if text_eq ip other then entries else or_nil (get other names))
get-store_live ip other [] names = rw (get-remove ip other names) (ground arith)
get-store_live ip other (e ∷ entries) names =
    rw (get-put ip other (e ∷ entries) names) (ground arith)

-- The sweep of an address keeps the live pairings of every address.
pub get-swept :
    (now : ℕ) (ip other : Text) (names : Names)
    → or_nil (get other (swept now ip names))
      ≡ (if text_eq ip other then live now ip names else or_nil (get other names))
unfolding swept
get-swept now ip other names = get-store_live ip other (live now ip names) names

-- The pairings of an address after one record.
pub get-remember_one :
    (now : ℕ) (ip other name : Text) (ttl expire : ℕ) (names : Names)
    → or_nil (get other (remember_one now ip name ttl expire names).1) ≡ (
        if text_eq ip other
        then others name (live now ip names)
          ++ (name, pairing_floor now (swept now ip names) ip ttl expire name) ∷ []
        else or_nil (get other names))
unfolding remember_one
get-remember_one now ip other name ttl expire names =
    rw
      (get-put ip other
        (others name (live now ip names)
          ++ (name, pairing_floor now (swept now ip names) ip ttl expire name) ∷ [])
        (swept now ip names))
      (ground (arith, get-swept now ip other names))

-- The newest pairing of an address has a name and lives past a time.
abbrev pub IsNamed : Text → ℕ → Pairings → Type 0
IsNamed name until [] = ⊥
IsNamed name until (e ∷ []) = (e.0 ≡ name) × (until ≤ e.1)
IsNamed name until (e ∷ d ∷ entries) = IsNamed name until (d ∷ entries)

IsNamed-append :
    (name : Text) (until floor : ℕ) (entries : Pairings)
    → until ≤ floor
    → IsNamed name until (entries ++ (name, floor) ∷ [])
IsNamed-append name until floor [] h = (refl, h)
IsNamed-append name until floor (e ∷ []) h = (refl, h)
IsNamed-append name until floor (e ∷ d ∷ entries) h =
    IsNamed-append name until floor (d ∷ entries) h

-- A pairing lives at least as long as the floor says.
pub expire-pairing_floor :
    (now : ℕ) (names : Names) (ip name : Text) (ttl : ℕ)
    → now + name_ttl_floor ≤ pairing_floor now names ip ttl (now + name_ttl_floor) name
unfolding pairing_floor
expire-pairing_floor now names ip name ttl = ground arith

true_ne_false : {b : Bool} → b ≡ true → b ≡ false → ⊥
true_ne_false h g = ground (arith, h, g)

none_ne_some : {name : Text} → none ≡ some name → ⊥
none_ne_some h = ground (arith, h)

IsNamed-one :
    (now : ℕ) (ip other name : Text) (ttl : ℕ) (names : Names)
    → (text_eq ip other ≡ true) ⊎ IsNamed name (now + name_ttl_floor) (or_nil (get other names))
    → IsNamed name
        (now + name_ttl_floor)
        (or_nil (get other (remember_one now ip name ttl (now + name_ttl_floor) names).1))
IsNamed-one now ip other name ttl names h =
    rw (get-remember_one now ip other name ttl (now + name_ttl_floor) names)
      (elim (Bool-cases (text_eq ip other)) [
        | inl same ↦ rw same (
            IsNamed-append name (now + name_ttl_floor) _ (others name (live now ip names))
              (expire-pairing_floor now (swept now ip names) ip name ttl))
        | inr apart ↦
            rw apart (elim h [ inl same ↦ elim (true_ne_false same apart) [ ] | inr named ↦ named ])
      ])

abbrev pub has_ip : Text → List Record → Bool
has_ip ip = any (λ r. text_eq r.0 ip)

IsNamed-all :
    (now : ℕ) (other name : Text) (found : List Record) (names : Names)
    → (has_ip other found ≡ true) ⊎ IsNamed name (now + name_ttl_floor) (or_nil (get other names))
    → IsNamed name
        (now + name_ttl_floor)
        (or_nil (get other (remember_all now (now + name_ttl_floor) name found names).1))
unfolding remember_all any
IsNamed-all now other name [] names (inl h) = elim (true_ne_false h refl) [ ]
IsNamed-all now other name [] names (inr h) = h
IsNamed-all now other name ((ip, ttl) ∷ found) names h =
    IsNamed-all now other name found (remember_one now ip name ttl (now + name_ttl_floor) names).1
      (next (Bool-cases (has_ip other found)) h)
  where
    next :
        (has_ip other found ≡ true) ⊎ (has_ip other found ≡ false)
        → ((text_eq ip other || has_ip other found) ≡ true)
          ⊎ IsNamed name (now + name_ttl_floor) (or_nil (get other names))
        → (has_ip other found ≡ true)
          ⊎ IsNamed name
              (now + name_ttl_floor)
              (or_nil (get other (remember_one now ip name ttl (now + name_ttl_floor) names).1))
    next (inl later) h = inl later
    next (inr last) (inl here) =
        inr (IsNamed-one now ip other name ttl names (inl (ground (arith, last, here))))
    next (inr last) (inr named) = inr (IsNamed-one now ip other name ttl names (inr named))

last_name-cons :
    (name : Text) (e : Text × ℕ) (entries : Pairings)
    → last_name entries ≡ some name
    → last_name (e ∷ entries) ≡ some name
last_name-cons name e [] h = elim (none_ne_some h) [ ]
last_name-cons name e (d ∷ entries) h = h

last_name-live :
    (name : Text) (until t : ℕ) (entries : Pairings)
    → IsNamed name until entries
    → t < until
    → last_name (filter (λ e. ltb t e.1) entries) ≡ some name
unfolding filter
last_name-live name until t [] named before = elim named [ ]
last_name-live name until t (e ∷ []) named before =
    rw (lt→ltb t e.1 (omega (arith, named.1, before))) (ap some named.0)
last_name-live name until t (e ∷ d ∷ entries) named before = elim (Bool-cases (ltb t e.1)) [
  | inl lives ↦ rw lives (
      last_name-cons name e (filter (λ e. ltb t e.1) (d ∷ entries))
        (last_name-live name until t (d ∷ entries) named before))
  | inr gone ↦ rw gone (last_name-live name until t (d ∷ entries) named before)
]

-- Right after an answer is remembered, and until 30 seconds later whatever its times to live are,
-- every address of the answer is named by the name that was asked.
pub host_for-remember :
    (now t : ℕ) (ip name : Text) (found : List Record) (f : Forwarder)
    → has_ip ip found ≡ true
    → t < now + name_ttl_floor
    → (host_for t ip (remember now name found f).1).0 ≡ some name
unfolding host_for live_names live remember
host_for-remember now t ip name found f here before =
    last_name-live name (now + name_ttl_floor) t _
      (IsNamed-all now ip name found (bounded names_max f.names) (inl here)) before
