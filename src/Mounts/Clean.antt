-- ===== src/Mounts/Clean.antt =====
-- The components of a path in src/msks/msks/spec/mounts.py, and the paths that are built from components.
use msks.Prelude.{
  Text, ℕ, split, join, filter, text_eq, starts_with, IsFree, AreFree, split-join, split-AreFree,
  ◌==◌, drop, Bool-cases, true, false, List, [], ◌∷◌, ◌++◌, ◌≡◌, refl, ap, ◌∙◌, inl, inr, arith,
  length,
}
use msks.Mounts.{slash, root_of, is_part, pure_path}

-- A component: some text without a separator that is not a dot.
abbrev pub AreNames : List Text → Type 0
AreNames [] = Unit
AreNames (n ∷ names) = (is_part n ≡ true) × IsFree slash n × AreNames names

filter-AreNames : (parts : List Text) → AreFree slash parts → AreNames (filter is_part parts)
unfolding filter
filter-AreNames [] free = tt
filter-AreNames (n ∷ parts) free = elim (Bool-cases (is_part n)) [
  | inl e ↦ rw e (e, free.0, filter-AreNames parts free.1)
  | inr e ↦ rw e (filter-AreNames parts free.1)
]

pub pure_path-AreNames : (t : Text) → AreNames (pure_path t).names
unfolding pure_path
pure_path-AreNames t =
    filter-AreNames (split slash (drop (length (root_of t)) t))
      (split-AreFree slash (drop (length (root_of t)) t))

filter-names : (names : List Text) → AreNames names → filter is_part names ≡ names
unfolding filter
filter-names [] are = refl
filter-names (n ∷ names) are = rw (are.0, filter-names names are.2) refl

free_of : (names : List Text) → AreNames names → AreFree slash names
free_of [] are = tt
free_of (n ∷ names) are = (are.1, free_of names are.2)

-- An absolute path of components.
abbrev pub absolute : List Text → Text
absolute names = slash ∷ join (slash ∷ []) names

no_part : is_part [] ≡ true → ⊥
unfolding text_eq
no_part h = ground (arith, h)

-- The first character of the joined components is no separator.
join-first :
    (n : Text) (names : List Text)
    → AreNames (n ∷ names)
    → (c : ℕ) × (t : Text) × (join (slash ∷ []) (n ∷ names) ≡ c ∷ t) × ((c == slash) ≡ false)
unfolding join
join-first [] names are = elim (no_part are.0) [ ]
join-first (c ∷ n) [] are = (c, n, refl, are.1.0)
join-first (c ∷ n) (m ∷ names) are =
    (c, n ++ slash ∷ [] ++ join (slash ∷ []) (m ∷ names), refl, are.1.0)

root_of-one : (c : ℕ) (t : Text) → (c == slash) ≡ false → root_of (slash ∷ c ∷ t) ≡ slash ∷ []
unfolding root_of starts_with
root_of-one c t other = ground (arith, other)

root_of-two :
    (c : ℕ) (t : Text) → (c == slash) ≡ false → root_of (slash ∷ slash ∷ c ∷ t) ≡ slash ∷ slash ∷ []
unfolding root_of starts_with
root_of-two c t other = ground (arith, other)

split-names :
    (n : Text) (names : List Text)
    → AreNames (n ∷ names)
    → filter is_part (split slash (join (slash ∷ []) (n ∷ names))) ≡ n ∷ names
split-names n names are =
    ap (filter is_part) (split-join slash n names (free_of (n ∷ names) are))
    ∙ filter-names (n ∷ names) are

-- An absolute path of components, behind one slash or two, has these components.
pub pure_path-one :
    (n : Text) (names : List Text)
    → AreNames (n ∷ names)
    → pure_path (absolute (n ∷ names)) ≡ record { root = slash ∷ []; names = n ∷ names }
unfolding pure_path
pure_path-one n names are =
    let (c, t, e, other) = join-first n names are in
    let r = ap (λ (s : Text). root_of (slash ∷ s)) e ∙ root_of-one c t other in
    rw (r, split-names n names are) refl

pub pure_path-two :
    (n : Text) (names : List Text)
    → AreNames (n ∷ names)
    → pure_path (slash ∷ absolute (n ∷ names))
      ≡ record { root = slash ∷ slash ∷ []; names = n ∷ names }
unfolding pure_path
pure_path-two n names are =
    let (c, t, e, other) = join-first n names are in
    let r = ap (λ (s : Text). root_of (slash ∷ slash ∷ s)) e ∙ root_of-two c t other in
    rw (r, split-names n names are) refl
