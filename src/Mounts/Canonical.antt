-- ===== src/Mounts/Canonical.antt =====
-- The canonical form of a path in src/msks/msks/spec/mounts.py.
use msks.Prelude.{
  Text, Bool, any, text_eq, starts_with, mem_text, drop, Bool-cases, true, false, not, Option, none,
  some, List, [], ◌∷◌, ◌≡◌, ◌⊎◌, refl, sym, ap, ◌∙◌, inl, inr, arith, if◌then◌else◌, codes,
}
use msks.Mounts.{
  Refusal, slash, PurePosixPath, root_of, pure_path, has_root, parts, str, canonical_of,
  canonical_guest, is_control, has_traversal, no_names, check_host_path_shape, control_character,
  not_absolute, traversal, filesystem_root,
}
use msks.Mounts.Clean.{AreNames, absolute, pure_path-AreNames, pure_path-one, pure_path-two}

root_of-cases :
    (t : Text) → (root_of t ≡ []) ⊎ ((root_of t ≡ slash ∷ []) ⊎ (root_of t ≡ slash ∷ slash ∷ []))
unfolding root_of
root_of-cases t = elim (Bool-cases (starts_with t (slash ∷ slash ∷ slash ∷ []))) [
  | inl a ↦ inr (inl (rw a refl))
  | inr a ↦ elim (Bool-cases (starts_with t (slash ∷ slash ∷ []))) [
    | inl b ↦ inr (inr (rw (a, b) refl))
    | inr b ↦ elim (Bool-cases (starts_with t (slash ∷ []))) [
      | inl c ↦ inr (inl (rw (a, b, c) refl))
      | inr c ↦ inl (rw (a, b, c) refl)
    ]
  ]
]

-- The components of a text.
abbrev pub names_of : Text → List Text
names_of t = (pure_path t).names

-- A rooted path is canonical behind one slash.
canonical_of-rooted :
    (p : PurePosixPath)
    → (p.root ≡ slash ∷ []) ⊎ (p.root ≡ slash ∷ slash ∷ [])
    → canonical_of p ≡ absolute p.names
unfolding str text_eq
canonical_of-rooted p (inl e) = rw e refl
canonical_of-rooted p (inr e) = rw e refl

-- What a path prints and parses to.
reparsed :
    (r : Text) (names : List Text)
    → (r ≡ slash ∷ []) ⊎ (r ≡ slash ∷ slash ∷ [])
    → no_names names ≡ false
    → AreNames names
    → pure_path (str (record { root = r; names = names })) ≡ record { root = r; names = names }
unfolding str
reparsed r [] rooted some_name are = ground (arith, some_name)
reparsed r (n ∷ names) (inl e) some_name are = rw e (pure_path-one n names are)
reparsed r (n ∷ names) (inr e) some_name are = rw e (pure_path-two n names are)

passed :
    (a b c d : Bool)
    → ◌≡◌ {A = Option Refusal}
        (if a
          then some control_character
          else if not b
          then some not_absolute
          else if c
          then some traversal
          else if d
          then some filesystem_root
          else none)
        none
    → (a ≡ false) × (b ≡ true) × (c ≡ false) × (d ≡ false)
passed a b c d h = ground (arith, h)

abbrev parts_of : Text → List Text → List Text
parts_of r names = if not (text_eq r []) then r ∷ names else names

no_bool : false ≡ true → ⊥
no_bool h = ground (arith, h)

rooted_parts :
    (r : Text) (names : List Text)
    → (r ≡ []) ⊎ ((r ≡ slash ∷ []) ⊎ (r ≡ slash ∷ slash ∷ []))
    → not (text_eq r []) ≡ true
    → mem_text (codes "..") (parts_of r names) ≡ false
    → no_names (drop 1 (parts_of r names)) ≡ false
    → ((r ≡ slash ∷ []) ⊎ (r ≡ slash ∷ slash ∷ []))
      × (mem_text (codes "..") names ≡ false)
      × (no_names names ≡ false)
unfolding text_eq mem_text
rooted_parts r names (inl e) b c d =
    elim (no_bool (sym (ap (λ (s : Text). not (text_eq s [])) e) ∙ b)) [ ]
rooted_parts r names (inr (inl e)) b c d = (
  inl e,
  sym (ap (λ (s : Text). mem_text (codes "..") (parts_of s names)) e) ∙ c,
  sym (ap (λ (s : Text). no_names (drop 1 (parts_of s names))) e) ∙ d,
)
rooted_parts r names (inr (inr e)) b c d = (
  inr e,
  sym (ap (λ (s : Text). mem_text (codes "..") (parts_of s names)) e) ∙ c,
  sym (ap (λ (s : Text). no_names (drop 1 (parts_of s names))) e) ∙ d,
)

-- What the shape rules of a host path say.
pub check_host_path_shape-none :
    (h : Text)
    → check_host_path_shape h ≡ none
    → (any is_control h ≡ false)
      × ((root_of h ≡ slash ∷ []) ⊎ (root_of h ≡ slash ∷ slash ∷ []))
      × (mem_text (codes "..") (names_of h) ≡ false)
      × (no_names (names_of h) ≡ false)
unfolding check_host_path_shape pure_path
check_host_path_shape-none h passes =
    let (a, b, c, d) =
      passed (any is_control h) (has_root (pure_path h)) (has_traversal (pure_path h))
        (no_names (drop 1 (parts (pure_path h)))) passes in
    let rest = rooted_parts (root_of h) (names_of h) (root_of-cases h) b c d in
    (a, rest.0, rest.1, rest.2)

-- The canonical form of a host path that passes is its components behind one slash.
pub canonical_host_path-absolute :
    (h : Text)
    → check_host_path_shape h ≡ none
    → canonical_guest (str (pure_path h)) ≡ absolute (names_of h)
unfolding canonical_guest pure_path
canonical_host_path-absolute h passes =
    let (_, rooted, _, some_name) = check_host_path_shape-none h passes in
    let e = reparsed (root_of h) (names_of h) rooted some_name (pure_path-AreNames h) in
    ap canonical_of e ∙ canonical_of-rooted (pure_path h) rooted
