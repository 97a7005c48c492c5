-- ===== src/Mounts/Quote.antt =====
-- The shell quoting of src/msks/msks/spec/mounts.py, read back by the rules of the shell.
use msks.Prelude.{
  Text, ℕ, Option, ◌==◌, Bool-cases, true, false, none, some, [], ◌∷◌, ◌++◌, ◌≡◌, refl, sym, ap,
  ◌∙◌, inl, inr, arith,
}
use msks.Mounts.Unit.{quote, replace_quotes, sh_quote}

-- Where a reader of one word stands: outside quotes, in single quotes, or behind a backslash.
pub data Place : Type 0 where
  outside quoted escaped : Place

abbrev pub cons : ℕ → Option Text → Option Text
cons c none = none
cons c (some t) = some (c ∷ t)

-- The word that a POSIX shell reads, where nothing but quoted parts and escaped characters stands in it.
pub read_word : Place → Text → Option Text
read_word outside [] = some []
read_word quoted [] = none
read_word escaped [] = none
read_word outside (c ∷ t) = elim (c == quote) [
  | true ↦ read_word quoted t
  | false ↦ elim (c == b'\\') [ true ↦ read_word escaped t | false ↦ none ]
]
read_word quoted (c ∷ t) = elim (c == quote) [
  | true ↦ read_word outside t
  | false ↦ cons c (read_word quoted t)
]
read_word escaped (c ∷ t) = cons c (read_word outside t)

eq_of : (a b : ℕ) → (a == b) ≡ true → a ≡ b
eq_of a b h = ground (arith, h)

read_word-plain :
    (c : ℕ) (t : Text)
    → (c == quote) ≡ false
    → read_word quoted (c ∷ t) ≡ cons c (read_word quoted t)
unfolding read_word
read_word-plain c t other = rw (other, read_word) refl

read_word-replace_quotes :
    (text : Text) → read_word quoted (replace_quotes text ++ quote ∷ []) ≡ some text
unfolding read_word replace_quotes
read_word-replace_quotes [] = refl
read_word-replace_quotes (c ∷ t) = elim (Bool-cases (c == quote)) [
  | inl e ↦ rw (e, read_word-replace_quotes t) (ap (λ d. some (d ∷ t)) (sym (eq_of c quote e)))
  | inr e ↦ rw e (
      read_word-plain c (replace_quotes t ++ quote ∷ []) e
      ∙ ap (cons c) (read_word-replace_quotes t))
]

-- A shell reads the quoted form of any text as one word, which is the text.
pub read_word-sh_quote : (text : Text) → read_word outside (sh_quote text) ≡ some text
unfolding read_word sh_quote
read_word-sh_quote text = read_word-replace_quotes text
