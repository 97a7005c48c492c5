-- ===== src/Net/Dnsmsg/Names.antt =====
-- The name decoder of src/msks/msks/net/dnsmsg.py on a name that is written label by label.
use msks.Net.Dnsmsg.Total.{size-append}
use msks.Prelude.{
  ℕ, zero, suc, ◌+◌, ◌≤◌, ◌<◌, false, some, List, [], ◌∷◌, ◌++◌, Text, ◌≡◌, refl, ap, ◌∙◌, arith,
  ◌==◌, length, length-append, take, drop, get_elem?, append-nil, append_assoc,
}
use msks.Net.Bytes.{Bytes, drop-append, take-append, drop-add, get_elem?-drop, head, length-drop_at}
use msks.Net.Dnsmsg.{
  end_at, label, Cursor, size, take_label, decode_step, decode_loop, decode_name, cursor_at,
  name_token, token_of, decode_fuel, finish_name, join_labels, or_else, or_unreadable,
}

-- A name on the wire: every label behind its length, then the root.
unfoldable pub encode_labels : List Bytes → Bytes
encode_labels [] = 0 ∷ []
encode_labels (l ∷ labels) = length l ∷ l ++ encode_labels labels

abbrev pub AreLabels : List Bytes → Type 0
AreLabels [] = Unit
AreLabels (l ∷ labels) = (0 < length l) × (length l ≤ 63) × AreLabels labels

-- A name of whole labels that fits in 253 characters.
abbrev pub IsName : List Bytes → Type 0
IsName labels = (0 < length labels) × (size labels ≤ 254) × AreLabels labels

pub length-encode_labels : (labels : List Bytes) → length (encode_labels labels) ≡ suc (size labels)
unfolding encode_labels size
length-encode_labels [] = refl
length-encode_labels (l ∷ labels) =
    omega (arith, length-append l (encode_labels labels), length-encode_labels labels)

pub length-size : (labels : List Bytes) → length labels ≤ size labels
unfolding size
length-size [] = omega arith
length-size (l ∷ labels) = omega (arith, length-size labels)

byte_at :
    (message bytes : Bytes) (pos b : ℕ)
    → drop pos message ≡ b ∷ bytes
    → get_elem? message pos ≡ some b
byte_at message bytes pos b h = get_elem?-drop pos message ∙ ap head h

name_token-end :
    (message rest : Bytes) (pos : ℕ)
    → drop pos message ≡ 0 ∷ rest
    → name_token message pos ≡ end_at (pos + 1)
unfolding name_token
name_token-end message rest pos h = rw (byte_at message rest pos 0 h) refl

token_of-label :
    (message : Bytes) (pos n : ℕ) → 0 < n → n ≤ 63 → token_of message pos (some n) ≡ label n
token_of-label message pos n some_byte small = ground arith

name_token-label :
    (message rest : Bytes) (pos n : ℕ)
    → 0 < n
    → n ≤ 63
    → drop pos message ≡ n ∷ rest
    → name_token message pos ≡ label n
unfolding name_token
name_token-label message rest pos n some_byte small h =
    ap (token_of message pos) (byte_at message rest pos n h)
    ∙ token_of-label message pos n some_byte small

past_byte :
    (message rest : Bytes) (pos b : ℕ) → drop pos message ≡ b ∷ rest → drop (pos + 1) message ≡ rest
past_byte message rest pos b h = drop-add pos 1 message ∙ ap (drop 1) h

past_label :
    (message l rest : Bytes) (pos n : ℕ)
    → length l ≡ n
    → drop pos message ≡ n ∷ l ++ rest
    → drop (pos + 1 + n) message ≡ rest
past_label message l rest pos n e h =
    drop-add (pos + 1) n message
    ∙ ap (drop n) (past_byte message (l ++ rest) pos n h)
    ∙ drop-append n l rest e

abbrev taken : Bytes → Cursor → Cursor
taken l c = record c { pos = c.pos + 1 + length l; labels = c.labels ++ l ∷ [] }

take_label-there :
    (message l rest : Bytes) (c : Cursor)
    → drop c.pos message ≡ length l ∷ l ++ rest
    → size c.labels + length l ≤ 253
    → take_label message (length l) c ≡ taken l c
unfolding take_label
take_label-there message l rest c h small =
    let there =
      ap (take (length l)) (past_byte message (l ++ rest) c.pos (length l) h)
      ∙ take-append (length l) l rest refl in
    let inside = length-drop_at c.pos message (length l ∷ l) rest h (omega arith) in
    rw there (ground (arith, inside))

above_zero : (pos n : ℕ) → ((pos + 1 + n) == 0) ≡ false
above_zero pos n = ground arith

same_end :
    (c : Cursor) (l : Bytes) (labels : List Bytes)
    → ◌≡◌ {A = Text × ℕ}
        (
          join_labels ((c.labels ++ l ∷ []) ++ labels),
          or_else c.end (c.pos + 1 + length l + length (encode_labels labels)),
        )
        (
          join_labels (c.labels ++ l ∷ labels),
          or_else c.end (c.pos + length (encode_labels (l ∷ labels))),
        )
unfolding encode_labels
same_end c l labels = rw (append_assoc c.labels (l ∷ []) labels) (
    ap (λ n. (join_labels (c.labels ++ l ∷ labels), or_else c.end n))
      (omega (arith, length-append l (encode_labels labels))))

pub decode_loop-encode :
    (labels : List Bytes) (fuel : ℕ) (message rest : Bytes) (c : Cursor)
    → AreLabels labels
    → length labels < fuel
    → size c.labels + size labels ≤ 254
    → drop c.pos message ≡ encode_labels labels ++ rest
    → decode_loop fuel message c
      ≡ some
          (join_labels (c.labels ++ labels), or_else c.end (c.pos + length (encode_labels labels)))
unfolding decode_loop decode_step finish_name encode_labels size
decode_loop-encode labels zero message rest c are fueled small h = elim fueled [ ]
decode_loop-encode [] (suc fuel) message rest c are fueled small h =
    rw (name_token-end message rest c.pos h, decode_loop, append-nil c.labels) refl
decode_loop-encode (l ∷ labels) (suc fuel) message rest c are fueled small h =
    let there = h ∙ ap (◌∷◌ (length l)) (append_assoc l (encode_labels labels) rest) in
    let fits : size (c.labels ++ l ∷ []) + size labels ≤ 254 =
      omega (arith, small, size-append c.labels l) in
    let step =
      take_label-there message l (encode_labels labels ++ rest) c there (omega (arith, small)) in
    let tail =
      decode_loop-encode labels fuel message rest (taken l c) are.2 (omega (arith, fueled)) fits
        (past_label message l (encode_labels labels ++ rest) c.pos (length l) refl there) in
    rw
      (
        name_token-label message (l ++ (encode_labels labels ++ rest)) c.pos (length l) are.0 are.1
            there,
        decode_loop,
        step,
        above_zero c.pos (length l),
      )
      (ap (decode_loop fuel message) step ∙ tail ∙ ap some (same_end c l labels))

-- A name of whole labels decodes to its labels, joined and in lower case, and to the offset behind it,
-- wherever it stands in a message and whatever stands behind it.
pub decode_name-encode :
    (labels : List Bytes) (message rest : Bytes) (offset : ℕ)
    → IsName labels
    → drop offset message ≡ encode_labels labels ++ rest
    → decode_name message offset ≡ (join_labels labels, offset + length (encode_labels labels))
unfolding decode_name size
decode_name-encode labels message rest offset name h = ap or_unreadable (
    decode_loop-encode labels decode_fuel message rest (cursor_at offset) name.2
      (omega (arith, name.1, length-size labels)) (omega (arith, name.1)) h)
