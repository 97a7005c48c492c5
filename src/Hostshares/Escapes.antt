-- ===== src/Hostshares/Escapes.antt =====
-- The mount table's escapes in src/msks/msks/hostshares.py, read back.
use msks.Prelude.{
  Text, ℕ, Bool, any, ◌==◌, Bool-cases, true, false, ◌||◌, [], ◌∷◌, ◌++◌, ◌≡◌, refl, sym, ap, ◌∙◌,
  inl, inr, arith, if◌then◌else◌,
}
use msks.Hostshares.{unescape_from, unescape_mount_field}

-- The kernel's spelling of a mount point: blanks and backslashes as three octal digits.
abbrev pub kernel_escape_of : ℕ → Text
kernel_escape_of c =
    if c == b' '
    then b'\\' ∷ b'0' ∷ b'4' ∷ b'0' ∷ []
    else if c == 9
    then b'\\' ∷ b'0' ∷ b'1' ∷ b'1' ∷ []
    else if c == 10
    then b'\\' ∷ b'0' ∷ b'1' ∷ b'2' ∷ []
    else if c == b'\\'
    then b'\\' ∷ b'1' ∷ b'3' ∷ b'4' ∷ []
    else c ∷ []

unfoldable pub kernel_escape : Text → Text
kernel_escape [] = []
kernel_escape (c ∷ t) = kernel_escape_of c ++ kernel_escape t

eq_of : (a b : ℕ) → (a == b) ≡ true → a ≡ b
eq_of a b h = ground (arith, h)

unescape-plain :
    (c : ℕ) (t : Text) → (c == b'\\') ≡ false → unescape_from 0 (c ∷ t) ≡ c ∷ unescape_from 0 t
unfolding unescape_from
unescape-plain c t h = rw (h, unescape_from) refl

unescape-kernel_escape_of :
    (c : ℕ) (t : Text) → unescape_from 0 (kernel_escape_of c ++ t) ≡ c ∷ unescape_from 0 t
unfolding unescape_from
unescape-kernel_escape_of c t = elim (Bool-cases (c == b' ')) [
  | inl e ↦ rw e (ap (λ d. d ∷ unescape_from 0 t) (sym (eq_of c b' ' e)))
  | inr e ↦ rw e (elim (Bool-cases (c == 9)) [
    | inl f ↦ rw f (ap (λ d. d ∷ unescape_from 0 t) (sym (eq_of c 9 f)))
    | inr f ↦ rw f (elim (Bool-cases (c == 10)) [
      | inl g ↦ rw g (ap (λ d. d ∷ unescape_from 0 t) (sym (eq_of c 10 g)))
      | inr g ↦ rw g (elim (Bool-cases (c == b'\\')) [
        | inl h ↦ rw h (ap (λ d. d ∷ unescape_from 0 t) (sym (eq_of c b'\\' h)))
        | inr h ↦ rw h (unescape-plain c t h)
      ])
    ])
  ])
]

unescape-kernel_escape : (t : Text) → unescape_from 0 (kernel_escape t) ≡ t
unfolding kernel_escape unescape_from
unescape-kernel_escape [] = refl
unescape-kernel_escape (c ∷ t) =
    unescape-kernel_escape_of c (kernel_escape t) ∙ ap (◌∷◌ c) (unescape-kernel_escape t)

or_false : (a b : Bool) → (a || b) ≡ false → (a ≡ false) × (b ≡ false)
or_false a b h = ground (arith, h)

unescape-no_backslash : (t : Text) → any (λ c. c == b'\\') t ≡ false → unescape_from 0 t ≡ t
unfolding any unescape_from
unescape-no_backslash [] h = refl
unescape-no_backslash (c ∷ t) h =
    let both = or_false (c == b'\\') (any (λ d. d == b'\\') t) h in
    unescape-plain c t both.0 ∙ ap (◌∷◌ c) (unescape-no_backslash t both.1)

-- Every mount point, as the kernel spells it in its table, is read back.
pub unescape_mount_field-kernel_escape :
    (point : Text) → unescape_mount_field (kernel_escape point) ≡ point
unfolding unescape_mount_field
unescape_mount_field-kernel_escape point =
    elim (Bool-cases (any (λ c. c == b'\\') (kernel_escape point))) [
      | inl e ↦ rw e (unescape-kernel_escape point)
      | inr e ↦
          rw e (sym (unescape-no_backslash (kernel_escape point) e) ∙ unescape-kernel_escape point)
    ]
