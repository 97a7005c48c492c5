-- ===== src/Prelude/Suffix.antt =====
-- What the text tests of `Texts` decide.
use Prim.Native.Nat.{ℕ}
use mathlib.Core.Path.{◌≡◌, refl, ap}
use mathlib.Core.Logic.{inl, inr}
use mathlib.Core.List.{[], ◌∷◌, ◌++◌}
use mathlib.Core.Bool.{true, false}
use mathlib.Core.Option.{none, some}
use native.Mathlib.Omega.{arith}
use msks.Prelude.Tests.{Bool-cases, Option-cases}
use msks.Prelude.Texts.{Text, text_eq, text_eq_iff, text_eq_refl, ends_with, contains, split_last}

pub ends_with-append : (p s : Text) → ends_with (p ++ s) s ≡ true
unfolding ends_with
ends_with-append [] [] = refl
ends_with-append [] (d ∷ s) = rw (text_eq_refl (d ∷ s))
ends_with-append (c ∷ p) s = ground (arith, ends_with-append p s)

pub ends_with→append : (t s : Text) → ends_with t s ≡ true → (p : Text) × (t ≡ p ++ s)
unfolding ends_with
ends_with→append [] s h = ([], (text_eq_iff [] s).0 h)
ends_with→append (c ∷ t) s h = elim (Bool-cases (text_eq (c ∷ t) s)) [
  | inl same ↦ ([], (text_eq_iff (c ∷ t) s).0 same)
  | inr other ↦ let (p, e) = ends_with→append t s (ground arith) in (c ∷ p, ap (◌∷◌ c) e)
]

pub text_eq-false : (s t : Text) → text_eq s t ≡ false → ¬ (s ≡ t)
text_eq-false s t h e = ground (arith, text_eq_iff s t)

pub text_eq_comm : (s t : Text) → text_eq s t ≡ text_eq t s
text_eq_comm s t = ground (arith, text_eq_iff s t, text_eq_iff t s)

pub split_last-none : (c : ℕ) (t : Text) → split_last c t ≡ none → contains c t ≡ false
unfolding split_last contains
split_last-none c [] h = refl
split_last-none c (d ∷ t) h = ground (arith, split_last-none c t)

-- The last occurrence: the text is put together again, and the part behind it has none.
pub split_last-append :
    (c : ℕ) (t a b : Text)
    → split_last c t ≡ some (a, b)
    → (t ≡ a ++ c ∷ b) × (contains c b ≡ false)
unfolding split_last contains
split_last-append c [] a b h = ground arith
split_last-append c (d ∷ t) a b h = elim (Option-cases (split_last c t)) [
  | inl e ↦ ground (arith, split_last-none c t)
  | inr ((x, y), e) ↦ ground (arith, split_last-append c t x y)
]
