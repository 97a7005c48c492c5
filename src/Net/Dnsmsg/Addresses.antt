-- ===== src/Net/Dnsmsg/Addresses.antt =====
-- Dotted addresses as src/msks/msks/net/dnsmsg.py prints and reads them.
use msks.Prelude.{ℕ, ◌<◌, [], ◌∷◌, ◌≡◌, refl, ap, inl, inr, arith, ltb, Bool-cases, int_of}
use msks.Prelude.{split-append, split-free, IsFree}
use msks.Net.Bytes.{Bytes, str, dotted}
use msks.Net.Dnsmsg.{rdata_of}

abbrev pub AreBytes : Bytes → Type 0
AreBytes [] = Unit
AreBytes (b ∷ bytes) = (b < 256) × AreBytes bytes

str-IsFree : (b : ℕ) → IsFree b'.' (str b)
unfolding str
str-IsFree b = elim (Bool-cases (ltb b 10)) [
  | inl e ↦ rw e (ground arith)
  | inr e ↦ rw e (elim (Bool-cases (ltb b 100)) [
    | inl e' ↦ rw e' (ground arith)
    | inr e' ↦ rw e' (ground arith)
  ])
]

int_of-str : (b : ℕ) → b < 256 → int_of (str b) ≡ b
unfolding int_of str
int_of-str b small = ground arith

-- An address that is printed from its bytes reads back as these bytes.
pub rdata_of-dotted :
    (b : ℕ) (bytes : Bytes) → AreBytes (b ∷ bytes) → rdata_of (dotted (b ∷ bytes)) ≡ b ∷ bytes
unfolding rdata_of dotted
rdata_of-dotted b [] small = rw (split-free b'.' (str b) (str-IsFree b), int_of-str b small.0) refl
rdata_of-dotted b (c ∷ bytes) small =
    rw (split-append b'.' (str b) (dotted (c ∷ bytes)) (str-IsFree b), int_of-str b small.0)
      (ap (◌∷◌ b) (rdata_of-dotted c bytes small.1))
