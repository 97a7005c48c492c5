-- ===== src/Prelude/Splits.antt =====
-- `str.split` at one separator, and `str.join`.
use Prim.Native.Nat.{ℕ}
use mathlib.Core.Path.{◌≡◌, refl, subst, ◌∙◌, ap}
use mathlib.Core.List.{List, [], ◌∷◌, ◌++◌, append_assoc}
use mathlib.Core.Bool.{true, false}
use mathlib.Core.Logic.{inl, inr}
use native.Mathlib.Omega.{arith}
use msks.Prelude.Tests.{◌==◌, Bool-cases}
use msks.Prelude.Texts.{Text, split, join}

split-cases : (c : ℕ) (t : Text) → (part : Text) × (parts : List Text) × (split c t ≡ part ∷ parts)
unfolding split
split-cases c [] = ([], [], refl)
split-cases c (d ∷ t) =
    let (part, parts, e) = split-cases c t in
    elim (Bool-cases (d == c)) [
      | inl same ↦ ([], part ∷ parts, rw (e, same) refl)
      | inr other ↦ (d ∷ part, parts, rw (e, other) refl)
    ]

==_refl : (n : ℕ) → (n == n) ≡ true
==_refl n = ground arith

-- The separator does not stand in the text.
abbrev pub IsFree : ℕ → Text → Type 0
IsFree c [] = Unit
IsFree c (d ∷ t) = ((d == c) ≡ false) × IsFree c t

-- The part before a separator is one part.
pub split-append : (c : ℕ) (s t : Text) → IsFree c s → split c (s ++ c ∷ t) ≡ s ∷ split c t
unfolding split
split-append c [] t free = let (part, parts, e) = split-cases c t in rw (e, ==_refl c) refl
split-append c (d ∷ s) t free = rw (split-append c s t free.1, free.0) refl

pub split-free : (c : ℕ) (s : Text) → IsFree c s → split c s ≡ s ∷ []
unfolding split
split-free c [] free = refl
split-free c (d ∷ s) free = rw (split-free c s free.1, free.0) refl

abbrev pub AreFree : ℕ → List Text → Type 0
AreFree c [] = Unit
AreFree c (s ∷ parts) = IsFree c s × AreFree c parts

-- Parts without the separator come back from their join.
pub split-join :
    (c : ℕ) (s : Text) (parts : List Text)
    → AreFree c (s ∷ parts)
    → split c (join (c ∷ []) (s ∷ parts)) ≡ s ∷ parts
unfolding join
split-join c s [] free = split-free c s free.0
split-join c s (t ∷ parts) free =
    ap (split c) (append_assoc s (c ∷ []) (join (c ∷ []) (t ∷ parts)))
    ∙ split-append c s (join (c ∷ []) (t ∷ parts)) free.0
    ∙ ap (◌∷◌ s) (split-join c t parts free.1)

split_first-AreFree :
    (c : ℕ) (t part : Text) (parts : List Text)
    → split c t ≡ part ∷ parts
    → AreFree c (split c t)
    → AreFree c (part ∷ parts)
split_first-AreFree c t part parts e free = subst (AreFree c) e free

-- The parts of a split have no separator.
pub split-AreFree : (c : ℕ) (t : Text) → AreFree c (split c t)
unfolding split
split-AreFree c [] = (tt, tt)
split-AreFree c (d ∷ t) =
    let (part, parts, e) = split-cases c t in
    let free = split_first-AreFree c t part parts e (split-AreFree c t) in
    elim (Bool-cases (d == c)) [
      | inl same ↦ rw (e, same) (tt, free)
      | inr other ↦ rw (e, other) ((other, free.0), free.1)
    ]
