-- ===== src/Net/Dnsmsg/Total.antt =====
-- The name decoder of src/msks/msks/net/dnsmsg.py ends, and its bounds.
use msks.Prelude.{
  zero, suc, ◌+◌, ◌-◌, ◌≤◌, ◌<◌, true, false, Option, some, [], ◌∷◌, ◌++◌, Text, ◌≡◌, ◌⊎◌, refl,
  inl, inr, arith, ◌==◌, is_none, Bool-cases, Option-cases, length, length-take, length-drop, drop,
  get_elem?,
}
use msks.Net.Dnsmsg.{
  Token, malformed, end_at, pointer, label, Cursor, size, follow, take_label, decode_step,
  decode_loop, cursor_at, name_token, pointer_token, decode_fuel, unreadable, List, ℕ,
}
use msks.Net.Bytes.{Bytes, slice}

-- A label token has a length above 0.
label-pos : (message : Bytes) (pos n : ℕ) → name_token message pos ≡ label n → 0 < n
unfolding name_token pointer_token
label-pos message pos n h = elim (Option-cases (get_elem? message pos)) [
  | inl e ↦ ground (arith, e)
  | inr (byte, e) ↦ ground (arith, e)
]

pub size-append : (ls : List Bytes) (l : Bytes) → size (ls ++ l ∷ []) ≡ size ls + suc (length l)
unfolding size
size-append [] l = omega arith
size-append (x ∷ ls) l = omega (arith, size-append ls l)

-- A label that the message holds whole has its length.
pub length-slice :
    (low n : ℕ) (message : Bytes) → low + n ≤ length message → length (slice low n message) ≡ n
length-slice low n message h =
    omega (arith, length-take n (drop low message), length-drop low message)

-- What is left of the two bounds.
abbrev measure : Cursor → ℕ
measure c = (256 - size c.labels) + (17 - c.jumps)

abbrev IsBounded : Cursor → Type 0
IsBounded c = (size c.labels ≤ 254) × (c.jumps ≤ 16)

take_label-measure :
    (message : Bytes) (n : ℕ) (c : Cursor)
    → 0 < n
    → IsBounded c
    → (((take_label message n c).pos == 0) ≡ false)
    → IsBounded (take_label message n c) × (measure (take_label message n c) < measure c)
unfolding take_label
take_label-measure message n c some_byte bounded go =
    ground (
      arith,
      size-append c.labels (slice (c.pos + 1) n message),
      length-slice (c.pos + 1) n message,
    )

follow-measure :
    (target after : ℕ) (c : Cursor)
    → IsBounded c
    → (((follow target after c).pos == 0) ≡ false)
    → IsBounded (follow target after c) × (measure (follow target after c) < measure c)
unfolding follow
follow-measure target after c bounded go = ground arith

pub Token-cases :
    (t : Token)
    → (t ≡ malformed)
      ⊎ ((after : ℕ) × (t ≡ end_at after))
      ⊎ ((target : ℕ) × (after : ℕ) × (t ≡ pointer target after))
      ⊎ ((n : ℕ) × (t ≡ label n))
Token-cases malformed = inl refl
Token-cases (end_at after) = inr (inl (after, refl))
Token-cases (pointer target after) = inr (inr (inl (target, after, refl)))
Token-cases (label n) = inr (inr (inr (n, refl)))

-- The loop from a cursor with a smaller measure, or a refusal.
continue-total :
    (fuel : ℕ) (message : Bytes) (d : Cursor)
    → ((d.pos == 0) ≡ false → is_none (decode_loop fuel message d) ≡ false)
    → is_none (elim (d.pos == 0) as (λ b. Option (Text × ℕ)) [
      | true ↦ some unreadable
      | false ↦ decode_loop fuel message d
    ])
      ≡ false
continue-total fuel message d k = elim (Bool-cases (d.pos == 0)) [
  | inl e ↦ rw e refl
  | inr e ↦ rw e (k e)
]

decode_loop_total :
    (fuel : ℕ) (message : Bytes) (c : Cursor)
    → IsBounded c
    → measure c < fuel
    → is_none (decode_loop fuel message c) ≡ false
unfolding decode_loop decode_step
decode_loop_total zero message c bounded small = elim small [ ]
decode_loop_total (suc fuel) message c bounded small =
    elim (Token-cases (name_token message c.pos)) [
      | inl e ↦ rw (e, decode_loop) refl
      | inr (inl (after, e)) ↦ rw (e, decode_loop) refl
      | inr (inr (inl (target, after, e))) ↦
          rw (e, decode_loop)
            (continue-total fuel message (follow target after c) (λ go.
              let m = follow-measure target after c bounded go in
              decode_loop_total fuel message (follow target after c) m.0
                (omega (arith, m.1, small))))
      | inr (inr (inr (n, e))) ↦
          rw (e, decode_loop)
            (continue-total fuel message (take_label message n c) (λ go.
              let m = take_label-measure message n c (label-pos message c.pos n e) bounded go in
              decode_loop_total fuel message (take_label message n c) m.0
                (omega (arith, m.1, small))))
    ]

-- The loop of `decode_name` ends by itself, on every message and at every offset: in fewer than 300 rounds.
pub decode_loop-ends :
    (message : Bytes) (offset : ℕ)
    → is_none (decode_loop decode_fuel message (cursor_at offset)) ≡ false
decode_loop-ends message offset =
    unfold size in
    decode_loop_total decode_fuel message (cursor_at offset) (omega arith) (omega arith)
