-- ===== src/Mounts/Spec/Disjoint.antt =====
-- Which sets of mounts src/msks/msks/spec/mounts.py accepts.
use msks.Prelude.{
  Text, ℕ, Bool, all, text_eq, mem_text, is_none, Option, zero, suc, true, false, not, ◌&&◌, ◌||◌,
  none, some, List, [], ◌∷◌, ◌++◌, ◌≡◌, refl, sym, ap, ◌∙◌, inl, inr, arith, leb, if◌then◌else◌,
  Bool-cases, length, take, text_eq_iff, text_eq_refl,
}
use msks.Mounts.{Refusal, mounted_twice, pure_path, parts, leads, texts_eq}
use msks.Mounts.Spec.{
  MountSpec, check_guest_path, check_shadowing, nested, check_priors, mount_tag, validate_from,
  validate_mounts,
}

texts_eq_sym : (ss ts : List Text) → texts_eq ss ts ≡ texts_eq ts ss
texts_eq_sym [] [] = refl
texts_eq_sym [] (t ∷ ts) = refl
texts_eq_sym (s ∷ ss) [] = refl
texts_eq_sym (s ∷ ss) (t ∷ ts) =
    ground (arith, text_eq_iff s t, text_eq_iff t s, texts_eq_sym ss ts)

take-all : (ss : List Text) (n : ℕ) → length ss ≡ n → take n ss ≡ ss
take-all [] zero h = refl
take-all [] (suc n) h = refl
take-all (s ∷ ss) zero h = ground (arith, h)
take-all (s ∷ ss) (suc n) h = ap (◌∷◌ s) (take-all ss n (omega (arith, h)))

-- One of the two paths leads the other.
nested_lem : (a b : List Text) → nested a b ≡ (leads a b || leads b a)
unfolding nested
nested_lem a b = elim (Bool-cases (leb (length a) (length b) && leb (length b) (length a))) [
  | inl same ↦
      let e : length a ≡ length b = ground (arith, same) in
      ground
        (arith, take-all b (length a) (omega (arith, e)), take-all a (length b) e, texts_eq_sym a b)
  | inr other ↦ ground (arith, other)
]

-- Two mounts can stand in one workspace: their devices differ, and neither path leads the other.
abbrev pub apart : (Text → Text) → MountSpec → MountSpec → Bool
apart sha256 m n =
    not (text_eq (mount_tag sha256 n) (mount_tag sha256 m))
    && not (
        leads (parts (pure_path m.guest)) (parts (pure_path n.guest))
        || leads (parts (pure_path n.guest)) (parts (pure_path m.guest)))

texts_eq_refl : (ss : List Text) → texts_eq ss ss ≡ true
texts_eq_refl [] = refl
texts_eq_refl (s ∷ ss) = ground (arith, text_eq_refl s, texts_eq_refl ss)

leads_refl : (a : List Text) → leads a a ≡ true
leads_refl a = rw (take-all a (length a) refl, texts_eq_refl a) (ground arith)

abbrev shadow : Text → Text → Bool
shadow p g =
    leads (parts (pure_path p)) (parts (pure_path g))
    || leads (parts (pure_path g)) (parts (pure_path p))

check_shadowing-none : (p g : Text) → is_none (check_shadowing p g) ≡ not (shadow p g)
unfolding check_shadowing
check_shadowing-none p g = elim (Bool-cases (text_eq p g)) [
  | inl same ↦
      let e =
        ap (λ t. leads (parts (pure_path p)) (parts (pure_path t))) ((text_eq_iff p g).0 same) in
      let leading = sym e ∙ leads_refl (parts (pure_path p)) in rw (same, leading) refl
  | inr other ↦ rw (other, nested_lem (parts (pure_path p)) (parts (pure_path g))) (ground arith)
]

check_priors-append :
    (guests : List Text) (p g : Text)
    → is_none (check_priors (guests ++ p ∷ []) g)
      ≡ (is_none (check_priors guests g) && not (shadow p g))
unfolding check_priors
check_priors-append [] p g = ground (arith, check_shadowing-none p g)
check_priors-append (q ∷ guests) p g = ground (arith, check_priors-append guests p g)

all-and :
    {A : Type 0} (p q : A → Bool) (xs : List A) → all (λ x. p x && q x) xs ≡ (all p xs && all q xs)
unfolding all
all-and p q [] = refl
all-and p q (x ∷ xs) = ground (arith, all-and p q xs)

all-ext : {A : Type 0} (p q : A → Bool) (xs : List A) → ((x : A) → p x ≡ q x) → all p xs ≡ all q xs
unfolding all
all-ext p q [] h = refl
all-ext p q (x ∷ xs) h = rw (h x, all-ext p q xs h) refl

-- One round of the loop.
step-none :
    (own above rest : Option Refusal) (taken : Bool)
    → is_none (
        if not (is_none own)
        then own
        else if taken
        then some mounted_twice
        else if not (is_none above)
        then above
        else rest)
      ≡ (is_none own && ((not taken && is_none above) && is_none rest))
step-none none none rest taken = ground arith
step-none none (some e) rest taken = ground arith
step-none (some e) above rest taken = refl

shuffle :
    (o f p g q r : Bool)
    → (o && (f && (p && ((g && q) && r)))) ≡ ((o && p) && ((f && g) && (q && r)))
shuffle true true p g q r = ground arith
shuffle true false p g q r = ground arith
shuffle false f p g q r = refl

module _ (sha256 : Text → Text) where
  abbrev pub pairwise : List MountSpec → Bool
  pairwise [] = true
  pairwise (m ∷ mounts) = all (apart sha256 m) mounts && pairwise mounts

  abbrev fits : List Text → List Text → MountSpec → Bool
  fits tags guests n =
      not (mem_text (mount_tag sha256 n) tags) && is_none (check_priors guests n.guest)

  -- A mount more is one test more.
  fits-more :
      (tags guests : List Text) (m n : MountSpec)
      → fits (mount_tag sha256 m ∷ tags) (guests ++ m.guest ∷ []) n
        ≡ (fits tags guests n && apart sha256 m n)
  unfolding mem_text
  fits-more tags guests m n = ground (arith, check_priors-append guests m.guest n.guest)

  validate_from-none :
      (tags guests : List Text) (mounts : List MountSpec)
      → is_none (validate_from sha256 tags guests mounts) ≡ (
          all (λ n. is_none (check_guest_path n.guest)) mounts
          && (all (fits tags guests) mounts && pairwise mounts))
  unfolding validate_from all
  validate_from-none tags guests [] = refl
  validate_from-none tags guests (m ∷ mounts) =
      let more =
        all-ext (fits (mount_tag sha256 m ∷ tags) (guests ++ m.guest ∷ []))
          (λ n. fits tags guests n && apart sha256 m n) mounts (fits-more tags guests m)
        ∙ all-and (fits tags guests) (apart sha256 m) mounts in
      step-none (check_guest_path m.guest) (check_priors guests m.guest)
        (validate_from sha256 (mount_tag sha256 m ∷ tags) (guests ++ m.guest ∷ []) mounts)
        (mem_text (mount_tag sha256 m) tags)
      ∙ ap (λ b. is_none (check_guest_path m.guest) && (fits tags guests m && b))
          (validate_from-none (mount_tag sha256 m ∷ tags) (guests ++ m.guest ∷ []) mounts
            ∙ ap
                (λ f.
                  all (λ n. is_none (check_guest_path n.guest)) mounts && (f && pairwise mounts))
                more)
      ∙ shuffle (is_none (check_guest_path m.guest)) (fits tags guests m) _ _ _ _

  fits-none : (n : MountSpec) → fits [] [] n ≡ true
  unfolding mem_text check_priors
  fits-none n = refl

  all-true :
      (p : MountSpec → Bool) (xs : List MountSpec)
      → ((x : MountSpec) → p x ≡ true)
      → all p xs ≡ true
  unfolding all
  all-true p [] h = refl
  all-true p (x ∷ xs) h = ground (arith, h x, all-true p xs h)

  -- A set of mounts is accepted exactly when the guest path of every mount passes its own rules, and of any
  -- two mounts the device names differ and neither guest path is the other or lies above it.
  pub validate_mounts-none :
      (mounts : List MountSpec)
      → is_none (validate_mounts sha256 mounts)
        ≡ (all (λ n. is_none (check_guest_path n.guest)) mounts && pairwise mounts)
  unfolding validate_mounts
  validate_mounts-none mounts =
      rw (validate_from-none [] [] mounts, all-true (fits [] []) mounts fits-none) refl
