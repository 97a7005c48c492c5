-- ===== src/Consent/Session/Store.antt =====
-- The session memory as a map from destinations to expiries: the laws of its lookups, and the dict
-- invariant.
use mathlib.Core.Path.{subst, subst₂}
use msks.Prelude.{
  ℕ, ◌+◌, Bool, true, false, not, ◌&&◌, Option, none, some, [], Text, text_eq, text_eq_iff,
  if◌then◌else◌, filter, ◌≡◌, refl, ◌∙◌, sym, ap, arith, max, Option-cases, Bool-cases, inl, inr,
}
use msks.Prelude.Dict.{
  text_key, get, put, remove, IsDict, get-put, get-remove, get-filter, put-IsDict, filter-IsDict,
}
use msks.Consent.Session.{
  Dest, dest_key, dest_beq, Entries, Memory, SessionMemory, empty, entries_of, or_zero, refresh,
  remember, allow, deny, without_host, forget_in, forget, clear,
}

-- The expiry of one entry.
unfoldable pub lookup : Memory → Text → Dest → Option ℕ
lookup table w key = get key (entries_of w table)

get-refresh :
    (key k : Dest) (expire : ℕ) (entries : Entries)
    → get k (refresh key expire entries)
      ≡ (if dest_beq key k then some (max (or_zero (get k entries)) expire) else get k entries)
unfolding refresh
get-refresh key k expire entries = rw get-put (elim (Bool-cases (dest_beq key k)) [
  | inl e ↦ rw e (rw ((dest_key.beq_iff key k).0 e) refl)
  | inr e ↦ rw e
])

entries_of-put :
    (w w' : Text) (entries : Entries) (table : Memory)
    → entries_of w' (put w entries table) ≡ (if text_eq w w' then entries else entries_of w' table)
unfolding entries_of
entries_of-put w w' entries table = rw get-put (ground arith)

entries_of-remove :
    (w w' : Text) (table : Memory)
    → entries_of w' (remove w table) ≡ (if text_eq w w' then [] else entries_of w' table)
unfolding entries_of
entries_of-remove w w' table = rw get-remove (ground arith)

-- The key `w'` where it is `w`, and elsewhere.
on_key :
    (P : Text → Bool → Type 0) (w w' : Text)
    → P w true
    → (text_eq w w' ≡ false → P w' false)
    → P w' (text_eq w w')
on_key P w w' same other = elim (Bool-cases (text_eq w w')) [
  | inl e ↦ subst₂ P ((text_eq_iff w w').0 e) (sym e) same
  | inr e ↦ subst (P w') (sym e) (other e)
]

pub lookup-remember :
    (table : Memory) (w w' h : Text) (p : Option ℕ) (ttl now : ℕ) (k : Dest)
    → lookup (remember table w h p ttl now) w' k ≡ (
        if text_eq w w' && dest_beq (h, p) k
        then some (max (or_zero (lookup table w' k)) (now + ttl))
        else lookup table w' k)
unfolding lookup remember
lookup-remember table w w' h p ttl now k = rw entries_of-put (
    on_key
      (λ v b.
        get k (if b then refresh (h, p) (now + ttl) (entries_of w table) else entries_of v table)
        ≡ (if b && dest_beq (h, p) k
            then some (max (or_zero (get k (entries_of v table))) (now + ttl))
            else get k (entries_of v table)))
      w w' (get-refresh (h, p) k (now + ttl) (entries_of w table)) (λ e. refl))

get-without_host :
    (h : Text) (k : Dest) (entries : Entries)
    → get k (without_host h entries) ≡ (if text_eq k.0 h then none else get k entries)
get-without_host h k entries =
    get-filter (λ (j : Dest). not (text_eq j.0 h)) k entries ∙ ground arith

entries_of-none : (w : Text) (table : Memory) → get w table ≡ none → entries_of w table ≡ []
unfolding entries_of
entries_of-none w table e = rw e

entries_of-some :
    (w : Text) (table : Memory) (entries : Entries)
    → get w table ≡ some entries
    → entries_of w table ≡ entries
unfolding entries_of
entries_of-some w table entries e = rw e

entries_of-forget_in :
    (table : Memory) (w w' h : Text)
    → entries_of w' (forget_in table w h)
      ≡ (if text_eq w w' then without_host h (entries_of w' table) else entries_of w' table)
unfolding forget_in
entries_of-forget_in table w w' h = elim (Option-cases (get w table)) [
  | inl e ↦
      rw (e, forget_in)
        (on_key
          (λ v b.
            entries_of v table
            ≡ (if b then without_host h (entries_of v table) else entries_of v table))
          w w' (rw (entries_of-none w table e) (unfold filter in refl)) (λ _. refl))
  | inr (entries, e) ↦
      rw (e, forget_in)
        (rw entries_of-put (
          on_key
            (λ v b.
              (if b then without_host h entries else entries_of v table)
              ≡ (if b then without_host h (entries_of v table) else entries_of v table))
            w w' (ap (without_host h) (sym (entries_of-some w table entries e))) (λ _. refl)))
]

pub lookup-forget_in :
    (table : Memory) (w w' h : Text) (k : Dest)
    → lookup (forget_in table w h) w' k
      ≡ (if text_eq w w' && text_eq k.0 h then none else lookup table w' k)
unfolding lookup
lookup-forget_in table w w' h k = rw entries_of-forget_in (elim (Bool-cases (text_eq w w')) [
  | inl e ↦ rw e (get-without_host h k (entries_of w' table))
  | inr e ↦ rw e
])

pub lookup-remove :
    (table : Memory) (w w' : Text) (k : Dest)
    → lookup (remove w table) w' k ≡ (if text_eq w w' then none else lookup table w' k)
unfolding lookup get
lookup-remove table w w' k = rw entries_of-remove (ground arith)

-- Both tables are dicts of dicts, as Python keeps them.
pub record IsMemory (s : SessionMemory) : Type 0 where
  pub allows : (w : Text) → IsDict (entries_of w s.allows)
  pub denies : (w : Text) → IsDict (entries_of w s.denies)

pub IsMemory-empty : IsMemory empty
unfolding entries_of get
IsMemory-empty = record { allows = λ w. tt; denies = λ w. tt }

abbrev Each : Memory → Type 0
Each table = (w : Text) → IsDict (entries_of w table)

remember-Each :
    (table : Memory) (w h : Text) (p : Option ℕ) (ttl now : ℕ)
    → Each table
    → Each (remember table w h p ttl now)
unfolding remember refresh
remember-Each table w h p ttl now d w' = rw entries_of-put (
    on_key
      (λ v b.
        IsDict (if b then refresh (h, p) (now + ttl) (entries_of w table) else entries_of v table))
      w w' (put-IsDict (h, p) _ (entries_of w table) (d w)) (λ _. d w'))

forget_in-Each : (table : Memory) (w h : Text) → Each table → Each (forget_in table w h)
forget_in-Each table w h d w' = rw entries_of-forget_in (elim (Bool-cases (text_eq w w')) [
  | inl e ↦ rw e (filter-IsDict (λ (j : Dest). not (text_eq j.0 h)) (entries_of w' table) (d w'))
  | inr e ↦ rw e (d w')
])

remove-Each : (table : Memory) (w : Text) → Each table → Each (remove w table)
remove-Each table w d w' =
    rw entries_of-remove
      (elim (Bool-cases (text_eq w w')) [ inl e ↦ rw e tt | inr e ↦ rw e (d w') ])

pub allow-IsMemory :
    (s : SessionMemory) (w h : Text) (p : Option ℕ) (ttl now : ℕ)
    → IsMemory s
    → IsMemory (allow s w h p ttl now)
unfolding allow
allow-IsMemory s w h p ttl now m = record {
  allows = remember-Each s.allows w h p ttl now m.allows;
  denies = m.denies;
}

pub deny-IsMemory :
    (s : SessionMemory) (w h : Text) (p : Option ℕ) (ttl now : ℕ)
    → IsMemory s
    → IsMemory (deny s w h p ttl now)
unfolding deny
deny-IsMemory s w h p ttl now m = record {
  allows = m.allows;
  denies = remember-Each s.denies w h p ttl now m.denies;
}

pub forget-IsMemory : (s : SessionMemory) (w h : Text) → IsMemory s → IsMemory (forget s w h)
unfolding forget
forget-IsMemory s w h m = record {
  allows = forget_in-Each s.allows w h m.allows;
  denies = forget_in-Each s.denies w h m.denies;
}

pub clear-IsMemory : (s : SessionMemory) (w : Text) → IsMemory s → IsMemory (clear s w)
unfolding clear
clear-IsMemory s w m = record {
  allows = remove-Each s.allows w m.allows;
  denies = remove-Each s.denies w m.denies;
}
