-- ===== src/Prelude/Texts.antt =====
-- Text as the list of its code points, with the parts of Python's `str` that the program uses.
use Prim.Native.Nat.{ℕ, ◌+◌, ◌-◌, ◌*◌}
use Prim.Native.Char.{code}
use Prim.Native.String.{String}
use mathlib.Core.Path.{◌≡◌, refl}
use mathlib.Core.Logic.{◌↔◌}
use mathlib.Core.List.{List, [], ◌∷◌, ◌++◌, reverse, map}
use mathlib.Core.Bool.{Bool, true, false, not, ◌&&◌, ◌||◌}
use mathlib.Core.Option.{Option, none, some}
use native.Mathlib.Omega.{arith}
use msks.Prelude.Tests.{leb, ◌==◌, if◌then◌else◌}

abbrev pub Text : Type 0
Text = List ℕ

-- The code points of a literal.
abbrev pub codes : String → Text
codes String.[] = []
codes (String.◌∷◌ c s) = code c ∷ codes s

unfoldable pub text_eq : Text → Text → Bool
text_eq [] [] = true
text_eq [] (d ∷ t) = false
text_eq (c ∷ s) [] = false
text_eq (c ∷ s) (d ∷ t) = c == d && text_eq s t

pub text_eq_iff : (s t : Text) → (text_eq s t ≡ true) ↔ (s ≡ t)
unfolding text_eq
text_eq_iff [] [] = ground arith
text_eq_iff [] (d ∷ t) = ground arith
text_eq_iff (c ∷ s) [] = ground arith
text_eq_iff (c ∷ s) (d ∷ t) = ground (arith, text_eq_iff s t)

pub text_eq_refl : (s : Text) → text_eq s s ≡ true
text_eq_refl s = (text_eq_iff s s).1 refl

-- `c in text`
unfoldable pub contains : ℕ → Text → Bool
contains c [] = false
contains c (d ∷ t) = c == d || contains c t

-- `text in texts`
unfoldable pub mem_text : Text → List Text → Bool
mem_text s [] = false
mem_text s (t ∷ ts) = text_eq s t || mem_text s ts

-- `text.startswith(prefix)`
unfoldable pub starts_with : Text → Text → Bool
starts_with t [] = true
starts_with [] (p ∷ ps) = false
starts_with (c ∷ t) (p ∷ ps) = c == p && starts_with t ps

-- `text.endswith(suffix)`
unfoldable pub ends_with : Text → Text → Bool
unfolding text_eq
ends_with [] suffix = text_eq [] suffix
ends_with (c ∷ t) suffix = text_eq (c ∷ t) suffix || ends_with t suffix

-- `str.isspace` of one character
unfoldable pub is_space : ℕ → Bool
is_space c =
    (leb 9 c && leb c 13)
    || (leb 28 c && leb c 32)
    || c == 0x85
    || c == 0xa0
    || c == 0x1680
    || (leb 0x2000 c && leb c 0x200a)
    || c == 0x2028
    || c == 0x2029
    || c == 0x202f
    || c == 0x205f
    || c == 0x3000

-- `text.lstrip()`
unfoldable pub lstrip : Text → Text
unfolding is_space
lstrip [] = []
lstrip (c ∷ t) = let rest = lstrip t in if is_space c then rest else c ∷ t

-- `text.strip()`
unfoldable pub strip : Text → Text
unfolding lstrip
strip t = reverse (lstrip (reverse (lstrip t)))

-- `str.lower` of one character below 256
unfoldable pub lower_code : ℕ → ℕ
lower_code c =
    if (leb b'A' c && leb c b'Z') || (leb 0xc0 c && leb c 0xde && not (c == 0xd7))
    then c + 32
    else c

unfoldable pub lower : Text → Text
unfolding lower_code
lower t = map lower_code t

unfoldable pub is_digit : ℕ → Bool
is_digit c = leb b'0' c && leb c b'9'

unfoldable pub is_alnum : ℕ → Bool
unfolding is_digit
is_alnum c = is_digit c || (leb b'A' c && leb c b'Z') || (leb b'a' c && leb c b'z')

unfoldable pub all_digits : Text → Bool
unfolding is_digit
all_digits [] = true
all_digits (c ∷ t) = is_digit c && all_digits t

unfoldable pub int_from : ℕ → Text → ℕ
int_from n [] = n
int_from n (c ∷ t) = int_from (n * 10 + (c - b'0')) t

-- `int(text)` of ASCII digits
unfoldable pub int_of : Text → ℕ
unfolding int_from
int_of = int_from 0

-- `text.split(c)`: the parts between the occurrences of `c`
unfoldable pub split : ℕ → Text → List Text
split c [] = [] ∷ []
split c (d ∷ t) = elim (split c t) [
  | [] ↦ (d ∷ []) ∷ []
  | part ∷ parts ↦ if d == c then [] ∷ part ∷ parts else (d ∷ part) ∷ parts
]

-- `text.split(c, 1)` where `c` occurs: the part before its first occurrence and the rest
unfoldable pub split_first : ℕ → Text → Option (Text × Text)
split_first c [] = none
split_first c (d ∷ t) = elim (split_first c t) [
  | none ↦ if d == c then some ([], t) else none
  | some (a, b) ↦ if d == c then some ([], t) else some (d ∷ a, b)
]

-- `text.rsplit(c, 1)` where `c` occurs: the part before its last occurrence and the rest
unfoldable pub split_last : ℕ → Text → Option (Text × Text)
split_last c [] = none
split_last c (d ∷ t) = elim (split_last c t) [
  | none ↦ if d == c then some ([], t) else none
  | some (a, b) ↦ some (d ∷ a, b)
]

-- `sep.join(parts)`
unfoldable pub join : Text → List Text → Text
join sep [] = []
join sep (part ∷ []) = part
join sep (part ∷ p ∷ ps) = part ++ sep ++ join sep (p ∷ ps)
