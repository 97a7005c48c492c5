-- ===== src/Interceptor/Swap/Replaced.antt =====
-- The tests and the replacement of the swap of src/msks/msks/interceptor/engine.py against independent
-- descriptions.
use msks.Prelude.{
  Text, ℕ, Bool, Option, zero, suc, ◌-◌, true, false, ◌||◌, List, [], ◌∷◌, ◌++◌, ◌≡◌, refl, sym, ap,
  ◌∙◌, inl, inr, arith, any, find, drop, length, starts_with, Bool-cases,
}
use mathlib.Core.Path.{subst}
use msks.Interceptor.Swap.{
  Entry, Request, Pairs, contains_text, replace_from, rides, carries, carried_entry, swap_pairs,
}

-- `needle` is replaced by `new` at its leftmost occurrences, one after the other.
pub data Replaces (needle new : Text) : Text → Text → Type 0 where
  ends : Replaces needle new [] []
  hit :
      {s t o out : Text}
      → s ≡ needle ++ t
      → o ≡ new ++ out
      → Replaces needle new t out
      → Replaces needle new s o
  miss :
      {c : ℕ} {t out : Text}
      → starts_with (c ∷ t) needle ≡ false
      → Replaces needle new t out
      → Replaces needle new (c ∷ t) (c ∷ out)

starts_with-append :
    (needle t : Text) → starts_with t needle ≡ true → t ≡ needle ++ drop (length needle) t
unfolding starts_with
starts_with-append [] t h = refl
starts_with-append (n ∷ needle) [] h = ground (arith, h)
starts_with-append (n ∷ needle) (c ∷ t) h = ground (arith, h, starts_with-append needle t)

sub_one : (n : ℕ) → suc n - 1 ≡ n
sub_one n = omega arith

replace_from-hit :
    (needle new : Text) (c : ℕ) (t : Text)
    → starts_with (c ∷ t) needle ≡ true
    → replace_from zero needle new (c ∷ t) ≡ new ++ replace_from (length needle - 1) needle new t
unfolding replace_from
replace_from-hit needle new c t e = ground (arith, e)

replace_from-miss :
    (needle new : Text) (c : ℕ) (t : Text)
    → starts_with (c ∷ t) needle ≡ false
    → replace_from zero needle new (c ∷ t) ≡ c ∷ replace_from zero needle new t
unfolding replace_from
replace_from-miss needle new c t e = ground (arith, e)

replace_from-Replaces :
    (n : ℕ) (needle new : Text) (skip : ℕ) (t : Text)
    → Replaces (n ∷ needle) new (drop skip t) (replace_from skip (n ∷ needle) new t)
unfolding replace_from
replace_from-Replaces n needle new zero [] = ends
replace_from-Replaces n needle new (suc skip) [] = ends
replace_from-Replaces n needle new (suc skip) (c ∷ t) = replace_from-Replaces n needle new skip t
replace_from-Replaces n needle new zero (c ∷ t) =
    elim (Bool-cases (starts_with (c ∷ t) (n ∷ needle))) [
      | inr e ↦
          subst (Replaces (n ∷ needle) new (c ∷ t)) (sym (replace_from-miss (n ∷ needle) new c t e))
            (miss e (replace_from-Replaces n needle new zero t))
      | inl e ↦
          hit (starts_with-append (n ∷ needle) (c ∷ t) e)
            (replace_from-hit (n ∷ needle) new c t e
              ∙ ap (λ k. new ++ replace_from k (n ∷ needle) new t) (sub_one (length needle)))
            (replace_from-Replaces n needle new (length needle) t)
    ]

-- Both texts of every pair, with the order and the number of the pairs kept.
abbrev pub AreReplaced : Text → Text → Pairs → Pairs → Type 0
AreReplaced needle new [] [] = Unit
AreReplaced needle new [] (q ∷ qs) = ⊥
AreReplaced needle new (p ∷ ps) [] = ⊥
AreReplaced needle new (p ∷ ps) (q ∷ qs) =
    Replaces needle new p.0 q.0 × Replaces needle new p.1 q.1 × AreReplaced needle new ps qs

pub swap_pairs-AreReplaced :
    (n : ℕ) (needle new : Text) (pairs : Pairs)
    → AreReplaced (n ∷ needle) new pairs (swap_pairs (n ∷ needle) new pairs)
swap_pairs-AreReplaced n needle new [] = tt
swap_pairs-AreReplaced n needle new (p ∷ pairs) = (
  replace_from-Replaces n needle new zero p.0,
  replace_from-Replaces n needle new zero p.1,
  swap_pairs-AreReplaced n needle new pairs,
)

-- The text from each of its positions on.
abbrev pub suffixes : Text → List Text
suffixes [] = [] ∷ []
suffixes (c ∷ t) = (c ∷ t) ∷ suffixes t

-- The needle stands somewhere in the text.
abbrev pub occurs : Text → Text → Bool
occurs needle t = any (λ s. starts_with s needle) (suffixes t)

contains_text-occurs : (needle t : Text) → contains_text needle t ≡ occurs needle t
unfolding contains_text any
contains_text-occurs needle [] = ground arith
contains_text-occurs needle (c ∷ t) = ground (arith, contains_text-occurs needle t)

-- The sentinel stands in a text of some pair.
abbrev pub is_in : Text → Pairs → Bool
is_in sentinel pairs = any (λ p. occurs sentinel p.0 || occurs sentinel p.1) pairs

rides-is_in : (sentinel : Text) (pairs : Pairs) → rides sentinel pairs ≡ is_in sentinel pairs
unfolding any
rides-is_in sentinel [] = refl
rides-is_in sentinel (p ∷ pairs) = ground (
  arith,
  contains_text-occurs sentinel p.0,
  contains_text-occurs sentinel p.1,
  rides-is_in sentinel pairs,
)

-- The first entry whose sentinel stands in a header field or a query pair.
abbrev pub first_carried : List Entry → Request → Option Entry
first_carried entries r = find (λ e. is_in e.sentinel r.headers || is_in e.sentinel r.query) entries

pub carried_entry-first :
    (entries : List Entry) (r : Request) → carried_entry entries r ≡ first_carried entries r
unfolding carried_entry carries find
carried_entry-first [] r = refl
carried_entry-first (e ∷ entries) r = ground (
  arith,
  rides-is_in e.sentinel r.headers,
  rides-is_in e.sentinel r.query,
  carried_entry-first entries r,
)
