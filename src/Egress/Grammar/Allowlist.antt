-- ===== src/Egress/Grammar/Allowlist.antt =====
-- What `parse_allowlist` returns and what it refuses.
use msks.Prelude.{
  ◌≢◌, Bool, true, false, not, ◌&&◌, ◌||◌, List, [], ◌∷◌, ◌++◌, append-nil, append_assoc, Text,
  text_eq, text_eq_iff, text_eq_comm, mem_text, strip, any, filter, ◌≡◌, refl, sym, ◌∙◌, arith,
  Result, ok, err,
}
use msks.Egress.Grammar.{Entries, valid_spec, collect_entry, collect, allowlist_of, parse_allowlist}

-- A blank entry is passed over.
abbrev pub is_blank : Text → Bool
is_blank raw = text_eq (strip raw) []

-- An entry that the parse refuses.
abbrev pub is_invalid : Text → Bool
is_invalid raw = not (is_blank raw) && not (valid_spec (strip raw))

-- An entry whose stripped form is `spec`, and which the parse keeps.
abbrev pub keeps : Text → Text → Bool
keeps spec raw = not (is_blank raw) && valid_spec (strip raw) && text_eq spec (strip raw)

-- No text stands in the list twice.
abbrev pub Distinct : List Text → Type 0
Distinct [] = Unit
Distinct (t ∷ ts) = (mem_text t ts ≡ false) × Distinct ts

abbrev pub AllValid : List Text → Type 0
AllValid [] = Unit
AllValid (t ∷ ts) = (valid_spec t ≡ true) × AllValid ts

mem_text-append :
    (s : Text) (xs ys : List Text) → mem_text s (xs ++ ys) ≡ (mem_text s xs || mem_text s ys)
unfolding mem_text
mem_text-append s [] ys = refl
mem_text-append s (x ∷ xs) ys = ground (arith, mem_text-append s xs ys)

Distinct-snoc :
    (ts : List Text) (t : Text) → Distinct ts → mem_text t ts ≡ false → Distinct (ts ++ t ∷ [])
unfolding mem_text
Distinct-snoc [] t d h = (refl, tt)
Distinct-snoc (s ∷ ts) t d h = (
  ground (arith, mem_text-append s ts (t ∷ []), text_eq_comm s t, d.0),
  Distinct-snoc ts t d.1 (ground arith),
)

AllValid-snoc :
    (ts : List Text) (t : Text) → AllValid ts → valid_spec t ≡ true → AllValid (ts ++ t ∷ [])
AllValid-snoc [] t d h = (h, tt)
AllValid-snoc (s ∷ ts) t d h = (d.0, AllValid-snoc ts t d.1 h)

filter-append :
    (p : Text → Bool) (xs ys : List Text) → filter p (xs ++ ys) ≡ filter p xs ++ filter p ys
unfolding filter
filter-append p [] ys = refl
filter-append p (x ∷ xs) ys = ground (arith, filter-append p xs ys)

-- The accumulators after the entries `before`.
record Holds (before : List Text) (e : Entries) : Type 0 where
  distinct : Distinct e.out
  valid : AllValid e.out
  seen : (s : Text) → mem_text s e.seen ≡ mem_text s e.out
  kept : (s : Text) → mem_text s e.out ≡ any (keeps s) before
  refused : e.invalid ≡ filter is_invalid before

any-append : (p : Text → Bool) (xs ys : List Text) → any p (xs ++ ys) ≡ (any p xs || any p ys)
unfolding any
any-append p [] ys = refl
any-append p (x ∷ xs) ys = ground (arith, any-append p xs ys)

module _ (before : List Text) (e : Entries) (raw : Text) (h : Holds before e) where
  abbrev after : Entries
  after = collect_entry raw e

  collect_entry-Distinct : Distinct (collect_entry raw e).out
  unfolding collect_entry
  collect_entry-Distinct =
      ground (arith, h.distinct, h.seen (strip raw), Distinct-snoc e.out (strip raw))

  collect_entry-valid : AllValid (collect_entry raw e).out
  unfolding collect_entry
  collect_entry-valid = ground (arith, h.valid, AllValid-snoc e.out (strip raw))

  collect_entry-seen :
      (s : Text) → mem_text s (collect_entry raw e).seen ≡ mem_text s (collect_entry raw e).out
  unfolding collect_entry mem_text
  collect_entry-seen s = ground (arith, h.seen s, mem_text-append s e.out (strip raw ∷ []))

  collect_entry-kept :
      (s : Text) → mem_text s (collect_entry raw e).out ≡ any (keeps s) (before ++ raw ∷ [])
  unfolding collect_entry mem_text any
  collect_entry-kept s = ground (
    arith,
    h.kept s,
    h.seen (strip raw),
    text_eq_iff s (strip raw),
    any-append (keeps s) before (raw ∷ []),
    mem_text-append s e.out (strip raw ∷ []),
  )

  collect_entry-refused : (collect_entry raw e).invalid ≡ filter is_invalid (before ++ raw ∷ [])
  unfolding collect_entry filter
  collect_entry-refused =
      ground (arith, h.refused, filter-append is_invalid before (raw ∷ []), append-nil e.invalid)

  collect_entry-Holds : Holds (before ++ raw ∷ []) (collect_entry raw e)
  collect_entry-Holds = record {
    distinct = collect_entry-Distinct;
    valid = collect_entry-valid;
    seen = collect_entry-seen;
    kept = collect_entry-kept;
    refused = collect_entry-refused;
  }

collect-Holds :
    (before values : List Text) (e : Entries)
    → Holds before e
    → Holds (before ++ values) (collect values e)
unfolding collect
collect-Holds before [] e h = rw append-nil h
collect-Holds before (raw ∷ values) e h = rw (← append_assoc before (raw ∷ []) values) (
    collect-Holds (before ++ raw ∷ []) values (collect_entry raw e)
      (collect_entry-Holds before e raw h))

-- What an allowlist parse promises of its result.
abbrev pub Parsed : List Text → Result (List Text) (List Text) → Type 0
Parsed values (ok out) =
    Distinct out
    × AllValid out
    × ((s : Text) → mem_text s out ≡ any (keeps s) values)
    × (filter is_invalid values ≡ [])
Parsed values (err bad) = (bad ≡ filter is_invalid values) × (bad ≢ [])

Parsed-allowlist_of :
    (values : List Text) (e : Entries) (bad : List Text)
    → e.invalid ≡ bad
    → Holds values e
    → Parsed values (allowlist_of e bad)
Parsed-allowlist_of values e [] i h = (h.distinct, h.valid, h.kept, sym h.refused ∙ i)
Parsed-allowlist_of values e (raw ∷ more) i h = (sym i ∙ h.refused, λ n. cc)

-- A parsed allowlist has no entry twice, holds valid entries only, and holds exactly the stripped
-- nonblank valid entries; no entry was invalid. A refused one names exactly the invalid entries, in
-- order, and there is one.
pub parse_allowlist_lem : (values : List Text) → Parsed values (parse_allowlist values)
unfolding parse_allowlist any filter mem_text
parse_allowlist_lem values = Parsed-allowlist_of values _ _ refl (
    collect-Holds [] values _
      (record { distinct = tt; valid = tt; seen = λ s. refl; kept = λ s. refl; refused = refl }))
