-- ===== src/Mounts/Escape.antt =====
-- The unit name of a mount (src/msks/msks/spec/mounts.py) tells its path: the escape is read back.
use msks.Prelude.{
  Text, ℕ, Bool, all, ◌==◌, ltb, is_alnum, Bool-cases, ◌+◌, ◌-◌, ◌*◌, ◌/◌, ◌%◌, ◌<◌, true, false,
  ◌&&◌, [], ◌∷◌, ◌++◌, ◌≡◌, refl, sym, ap, ◌∙◌, inl, inr, arith, if◌then◌else◌, is_digit,
}
use msks.Mounts.{slash}
use msks.Mounts.Unit.{
  utf8, utf8_of, lstrip_slash, is_unit_char, hex_digit, hex_escape, escape_byte, escape_rest,
  escape_all, systemd_escape_path,
}

-- What the reader of an escaped name has seen of an escape.
pub data Seen : Type 0 where
  nothing backslash x : Seen
  high : ℕ → Seen

abbrev pub hex_value : ℕ → ℕ
hex_value c = if ltb c 58 then c - b'0' else c - 87

-- `systemd-escape --unescape` of a name: a dash is a separator, and an escape is its byte.
pub unescape : Seen → Text → Text
unescape seen [] = []
unescape nothing (c ∷ t) = elim (c == b'-') [
  | true ↦ slash ∷ unescape nothing t
  | false ↦ elim (c == b'\\') [ true ↦ unescape backslash t | false ↦ c ∷ unescape nothing t ]
]
unescape backslash (c ∷ t) = unescape x t
unescape x (c ∷ t) = unescape (high (hex_value c)) t
unescape (high n) (c ∷ t) = (n * 16 + hex_value c) ∷ unescape nothing t

hex_value-hex_digit : (n : ℕ) → n < 16 → hex_value (hex_digit n) ≡ n
hex_value-hex_digit n h = ground (arith, h)

unescape-hex_escape :
    (b : ℕ) (t : Text) → b < 256 → unescape nothing (hex_escape b ++ t) ≡ b ∷ unescape nothing t
unfolding unescape
unescape-hex_escape b t small =
    rw
      (
        hex_value-hex_digit (b / 16) (omega (arith, small)),
        hex_value-hex_digit (b % 16) (omega arith),
      )
      (ap (λ n. n ∷ unescape nothing t) (omega arith))

unescape-plain :
    (b : ℕ) (t : Text) → is_unit_char b ≡ true → unescape nothing (b ∷ t) ≡ b ∷ unescape nothing t
unfolding unescape is_unit_char is_alnum is_digit
unescape-plain b t plain = ground (arith, plain)

eq_of : (a b : ℕ) → (a == b) ≡ true → a ≡ b
eq_of a b h = ground (arith, h)

unescape-escape_byte :
    (b : ℕ) (leading : Bool) (t : Text)
    → b < 256
    → unescape nothing (escape_byte b leading ++ t) ≡ b ∷ unescape nothing t
unfolding escape_byte
unescape-escape_byte b leading t small = elim (Bool-cases (b == slash)) [
  | inl e ↦ rw e (unfold unescape in ap (λ c. c ∷ unescape nothing t) (sym (eq_of b slash e)))
  | inr e ↦ rw e (elim (Bool-cases (b == b'.' && leading)) [
    | inl d ↦ rw d (
        unescape-hex_escape b'.' t (omega arith)
        ∙ ap (λ c. c ∷ unescape nothing t) (sym (eq_of b b'.' (ground (arith, d)))))
    | inr d ↦ rw d (elim (Bool-cases (is_unit_char b)) [
      | inl plain ↦ rw plain (unescape-plain b t plain)
      | inr other ↦ rw other (unescape-hex_escape b t small)
    ])
  ])
]

abbrev pub is_ascii : Text → Bool
is_ascii = all (λ c. ltb c 0x80)

unescape-escape_rest :
    (bytes : Text) → is_ascii bytes ≡ true → unescape nothing (escape_rest bytes) ≡ bytes
unfolding escape_rest all unescape
unescape-escape_rest [] h = refl
unescape-escape_rest (b ∷ bytes) h =
    unescape-escape_byte b false (escape_rest bytes) (ground (arith, h))
    ∙ ap (◌∷◌ b) (unescape-escape_rest bytes (ground (arith, h)))

unescape-escape_all :
    (bytes : Text) → is_ascii bytes ≡ true → unescape nothing (escape_all bytes) ≡ bytes
unfolding escape_rest all unescape
unescape-escape_all [] h = refl
unescape-escape_all (b ∷ bytes) h =
    unescape-escape_byte b true (escape_rest bytes) (ground (arith, h))
    ∙ ap (◌∷◌ b) (unescape-escape_rest bytes (ground (arith, h)))

utf8-ascii : (t : Text) → is_ascii t ≡ true → utf8 t ≡ t
unfolding utf8 utf8_of all
utf8-ascii [] h = refl
utf8-ascii (c ∷ t) h = ground (arith, h, utf8-ascii t (ground (arith, h)))

is_ascii-lstrip_slash : (t : Text) → is_ascii t ≡ true → is_ascii (lstrip_slash t) ≡ true
unfolding lstrip_slash all
is_ascii-lstrip_slash [] h = h
is_ascii-lstrip_slash (c ∷ t) h = ground (arith, h, is_ascii-lstrip_slash t (ground (arith, h)))

-- The escaped name of an ASCII path is read back, by the rules of systemd, to the path without its leading
-- slashes, so that two such paths never share a unit name.
pub unescape-systemd_escape_path :
    (guest : Text)
    → is_ascii guest ≡ true
    → unescape nothing (systemd_escape_path guest) ≡ lstrip_slash guest
unfolding systemd_escape_path
unescape-systemd_escape_path guest ascii =
    let stripped = is_ascii-lstrip_slash guest ascii in
    rw (utf8-ascii (lstrip_slash guest) stripped)
      (unescape-escape_all (lstrip_slash guest) stripped)
