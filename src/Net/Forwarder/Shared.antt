-- ===== src/Net/Forwarder/Shared.antt =====
-- Co-residency in the naming memory of src/msks/msks/net/dns.py: the addresses that `remember`
-- reports.
use msks.Prelude.{
  ℕ, ◌+◌, ◌<◌, Bool, true, false, not, ◌&&◌, ◌||◌, List, [], ◌∷◌, ◌++◌, Text, ◌≡◌, refl, sym, ap,
  ◌∙◌, inl, inr, arith, ltb, lt→ltb, if◌then◌else◌, Bool-cases, filter, any, text_eq, text_eq_iff,
  mem_text, text_eq_refl,
}
use msks.Prelude.Dict.{text_key}
use msks.Net.Dnsmsg.{Record}
use msks.Net.Forwarder.{
  Forwarder, Names, Pairings, live, swept, others, pairing_floor, remember_one, remember_all,
  remember, bounded, names_max, name_ttl_floor, has_name, some_entry, noted,
}
use msks.Net.Forwarder.Pairings.{get-remember_one, expire-pairing_floor, has_ip}

-- A live pairing under another name, and none under this.
abbrev pub is_other : Text → Pairings → Bool
is_other name entries = some_entry entries && not (has_name name entries)

has_name-last :
    (now : ℕ) (name : Text) (floor : ℕ) (entries : Pairings)
    → now < floor
    → has_name name (filter (λ e. ltb now e.1) (entries ++ (name, floor) ∷ [])) ≡ true
unfolding filter any
has_name-last now name floor [] h = rw (lt→ltb now floor h) (ground (arith, text_eq_iff name name))
has_name-last now name floor (e ∷ entries) h =
    ground (arith, has_name-last now name floor entries h)

-- The name's own address has a live pairing of it afterwards.
is_other-here :
    (now : ℕ) (ip name : Text) (ttl : ℕ) (names : Names)
    → is_other name (live now ip (remember_one now ip name ttl (now + name_ttl_floor) names).1)
      ≡ false
unfolding live
is_other-here now ip name ttl names =
    rw (get-remember_one now ip ip name ttl (now + name_ttl_floor) names, text_eq_refl ip)
      (ground (
        arith,
        has_name-last now name
            (pairing_floor now (swept now ip names) ip ttl (now + name_ttl_floor) name)
            (others name (live now ip names))
            (omega (arith, expire-pairing_floor now (swept now ip names) ip name ttl)),
      ))

else_of {ℓ} : {A : Type ℓ} {b : Bool} (x y : A) → b ≡ false → (if b then x else y) ≡ y
else_of x y h = ground (arith, h)

live-apart :
    (now : ℕ) (ip other name : Text) (ttl expire : ℕ) (names : Names)
    → text_eq ip other ≡ false
    → live now other (remember_one now ip name ttl expire names).1 ≡ live now other names
unfolding live
live-apart now ip other name ttl expire names apart =
    ap (filter (λ e. ltb now e.1))
      (get-remember_one now ip other name ttl expire names ∙ else_of _ _ apart)

mem_text-noted :
    (other ip : Text) (b : Bool) (rest : List Text)
    → mem_text other (noted ip b rest) ≡ ((text_eq ip other && b) || mem_text other rest)
unfolding mem_text
mem_text-noted other ip true rest = ground (arith, text_eq_iff ip other, text_eq_iff other ip)
mem_text-noted other ip false rest = ground arith

mem_text-remember_all :
    (now : ℕ) (other name : Text) (found : List Record) (names : Names)
    → mem_text other (remember_all now (now + name_ttl_floor) name found names).0
      ≡ (has_ip other found && is_other name (live now other names))
unfolding remember_all any mem_text
mem_text-remember_all now other name [] names = refl
mem_text-remember_all now other name ((ip, ttl) ∷ found) names =
    mem_text-noted other ip (is_other name (live now ip names))
      (remember_all now (now + name_ttl_floor) name found next).0
    ∙ ap (λ m. (text_eq ip other && is_other name (live now ip names)) || m)
        (mem_text-remember_all now other name found next)
    ∙ elim (Bool-cases (text_eq ip other)) [
      | inl same ↦
          let e = (text_eq_iff ip other).0 same in
          let here =
            ap (λ a. is_other name (live now a next)) (sym e)
            ∙ is_other-here now ip name ttl names in
          let before = ap (λ a. is_other name (live now a names)) e in
          ground (arith, same, here, before)
      | inr apart ↦
          rw (apart, live-apart now ip other name ttl (now + name_ttl_floor) names apart) refl
    ]
  where
    next : Names
    next = (remember_one now ip name ttl (now + name_ttl_floor) names).1

-- An answer marks an address as shared exactly when the address stands in the answer and has live
-- pairings, none of them under the name that was asked. The memory is the one before, or an empty one where
-- it stood at its bound.
pub remember-fresh :
    (now : ℕ) (ip name : Text) (found : List Record) (f : Forwarder)
    → mem_text ip (remember now name found f).0
      ≡ (has_ip ip found && is_other name (live now ip (bounded names_max f.names)))
unfolding remember
remember-fresh now ip name found f =
    mem_text-remember_all now ip name found (bounded names_max f.names)
