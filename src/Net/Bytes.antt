-- ===== src/Net/Bytes.antt =====
-- Bytes as the codecs of src/msks/msks/net read and write them: big-endian words, slices, dotted
-- addresses.
use msks.Prelude.{
  ℕ, zero, suc, ◌+◌, ◌*◌, ◌/◌, ◌%◌, ◌≤◌, ◌<◌, List, [], ◌∷◌, ◌++◌, Option, none, some, Text, length,
  get_elem?, take, drop, ltb, if◌then◌else◌, ◌≡◌, refl, ap, sym, ◌∙◌, arith, length-drop,
  length-append,
}

abbrev pub Bytes : Type 0
Bytes = List ℕ

-- `str(b)` of a byte
unfoldable pub str : ℕ → Text
str b =
    if ltb b 10
    then (48 + b) ∷ []
    else if ltb b 100
    then (48 + b / 10) ∷ (48 + b % 10) ∷ []
    else (48 + b / 100) ∷ (48 + b / 10 % 10) ∷ (48 + b % 10) ∷ []

-- `".".join(str(b) for b in bytes)`
unfoldable pub dotted : Bytes → Text
unfolding str
dotted [] = []
dotted (b ∷ []) = str b
dotted (b ∷ c ∷ bytes) = str b ++ 46 ∷ dotted (c ∷ bytes)

-- `int.from_bytes(bytes, "big")`
abbrev pub from_bytes : ℕ → Bytes → ℕ
from_bytes acc [] = acc
from_bytes acc (b ∷ bytes) = from_bytes (acc * 256 + b) bytes

-- `payload[low : low + n]`
abbrev pub slice : ℕ → ℕ → Bytes → Bytes
slice low n payload = take n (drop low payload)

-- 16 bits in network order
abbrev pub word : ℕ → Bytes → Bytes
word n bytes = (n / 256) ∷ (n % 256) ∷ bytes

pub drop-append : (n : ℕ) (xs ys : Bytes) → length xs ≡ n → drop n (xs ++ ys) ≡ ys
drop-append zero [] ys h = refl
drop-append zero (x ∷ xs) ys h = ground (arith, h)
drop-append (suc n) [] ys h = ground (arith, h)
drop-append (suc n) (x ∷ xs) ys h = drop-append n xs ys (omega (arith, h))

pub drop_nil : (n : ℕ) → drop {A = ℕ} n [] ≡ []
drop_nil zero = refl
drop_nil (suc n) = refl

suc-add : (a b : ℕ) → suc a + b ≡ suc (a + b)
suc-add a b = omega arith

pub drop-add : (a b : ℕ) (xs : Bytes) → drop (a + b) xs ≡ drop b (drop a xs)
drop-add zero b xs = ap (λ n. drop n xs) (omega arith)
drop-add (suc a) b [] = drop_nil (suc a + b) ∙ sym (drop_nil b)
drop-add (suc a) b (x ∷ xs) = ap (λ n. drop n (x ∷ xs)) (suc-add a b) ∙ drop-add a b xs

pub take-append : (n : ℕ) (xs ys : Bytes) → length xs ≡ n → take n (xs ++ ys) ≡ xs
take-append zero [] ys h = refl
take-append zero (x ∷ xs) ys h = ground (arith, h)
take-append (suc n) [] ys h = ground (arith, h)
take-append (suc n) (x ∷ xs) ys h = ap (◌∷◌ x) (take-append n xs ys (omega (arith, h)))

abbrev pub head : Bytes → Option ℕ
head [] = none
head (b ∷ bytes) = some b

pub get_elem?-drop : (n : ℕ) (xs : Bytes) → get_elem? xs n ≡ head (drop n xs)
get_elem?-drop zero [] = refl
get_elem?-drop zero (x ∷ xs) = refl
get_elem?-drop (suc n) [] = refl
get_elem?-drop (suc n) (x ∷ xs) = get_elem?-drop n xs

-- What stands at an offset is in the message.
pub length-drop_at :
    (n : ℕ) (xs ys zs : Bytes) → drop n xs ≡ ys ++ zs → 0 < length ys → n + length ys ≤ length xs
length-drop_at n xs ys zs h some_byte =
    omega (arith, length-drop n xs, ap (length {A = ℕ}) h, length-append ys zs)
