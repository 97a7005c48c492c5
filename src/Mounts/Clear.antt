-- ===== src/Mounts/Clear.antt =====
-- Control characters in the paths of src/msks/msks/spec/mounts.py and in their components.
use msks.Prelude.{
  Text, ℕ, Bool, split, join, filter, any, ◌==◌, drop, Bool-cases, zero, suc, false, ◌||◌, List, [],
  ◌∷◌, ◌++◌, ◌≡◌, refl, inl, inr, arith, if◌then◌else◌, length,
}
use msks.Mounts.{slash, root_of, is_part, pure_path, parts, is_control}
use msks.Mounts.Canonical.{names_of}

-- No character of a text is a control character.
abbrev pub IsClear : Text → Type 0
IsClear t = any is_control t ≡ false

abbrev pub AreClear : List Text → Type 0
AreClear [] = Unit
AreClear (s ∷ parts) = IsClear s × AreClear parts

pub IsClear-append : (s t : Text) → IsClear s → IsClear t → IsClear (s ++ t)
unfolding any
IsClear-append [] t f h = h
IsClear-append (c ∷ s) t f h = ground (arith, f, IsClear-append s t (ground (arith, f)) h)

pub IsClear-join : (parts : List Text) → AreClear parts → IsClear (join (slash ∷ []) parts)
unfolding join any
IsClear-join [] clear = refl
IsClear-join (s ∷ []) clear = clear.0
IsClear-join (s ∷ t ∷ parts) clear =
    IsClear-append (s ++ slash ∷ []) (join (slash ∷ []) (t ∷ parts))
      (IsClear-append s (slash ∷ []) clear.0 refl) (IsClear-join (t ∷ parts) clear.1)

or_false : (a b : Bool) → (a || b) ≡ false → (a ≡ false) × (b ≡ false)
or_false a b h = ground (arith, h)

AreClear-split : (t : Text) → IsClear t → AreClear (split slash t)
unfolding split any
AreClear-split [] clear = (refl, tt)
AreClear-split (c ∷ t) clear =
    let both = or_false (is_control c) (any is_control t) clear in
    AreClear-prepend c (split slash t) both.0 (AreClear-split t both.1)
  where
    AreClear-prepend :
        (d : ℕ) (parts : List Text)
        → is_control d ≡ false
        → AreClear parts
        → AreClear (elim parts as (λ x. List Text) [
          | [] ↦ (d ∷ []) ∷ []
          | part ∷ rest ↦ if d == slash then [] ∷ part ∷ rest else (d ∷ part) ∷ rest
        ])
    AreClear-prepend d [] f h = (ground (arith, f), tt)
    AreClear-prepend d (part ∷ rest) f h = elim (Bool-cases (d == slash)) [
      | inl e ↦ rw e (refl, h)
      | inr e ↦ rw e (ground (arith, f, h.0), h.1)
    ]

AreClear-filter : (p : Text → Bool) (parts : List Text) → AreClear parts → AreClear (filter p parts)
unfolding filter
AreClear-filter p [] h = tt
AreClear-filter p (s ∷ parts) h = elim (Bool-cases (p s)) [
  | inl e ↦ rw e (h.0, AreClear-filter p parts h.1)
  | inr e ↦ rw e (AreClear-filter p parts h.1)
]

IsClear-drop : (n : ℕ) (t : Text) → IsClear t → IsClear (drop n t)
unfolding any
IsClear-drop zero t h = h
IsClear-drop (suc n) [] h = h
IsClear-drop (suc n) (c ∷ t) h = IsClear-drop n t (or_false (is_control c) (any is_control t) h).1

pub names_of-AreClear : (t : Text) → IsClear t → AreClear (names_of t)
unfolding pure_path
names_of-AreClear t clear =
    AreClear-filter is_part (split slash (drop (length (root_of t)) t))
      (AreClear-split (drop (length (root_of t)) t) (IsClear-drop (length (root_of t)) t clear))
