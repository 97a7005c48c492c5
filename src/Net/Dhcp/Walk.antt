-- ===== src/Net/Dhcp/Walk.antt =====
-- The walk over the options in src/msks/msks/net/dhcp.py ends.
use msks.Prelude.{
  ℕ, zero, suc, ◌+◌, ◌≤◌, ◌<◌, false, some, [], ◌≡◌, refl, inl, inr, arith, is_none, Option-cases,
  length, get_elem?,
}
use msks.Net.Bytes.{Bytes}
use msks.Net.Packet.Offsets.{get_elem?-in}
use msks.Net.Dhcp.{Options, option_step, option_value, options_from}

option_step-later :
    (blob : Bytes) (i next : ℕ) (options found : Options)
    → option_step blob i options ≡ some (next, found)
    → (i < next) × (next ≤ length blob)
unfolding option_step option_value
option_step-later blob i next options found h = elim (Option-cases (get_elem? blob i)) [
  | inl e ↦ ground (arith, h, e)
  | inr (code, e) ↦ elim (Option-cases (get_elem? blob (i + 1))) [
    | inl e' ↦ ground (arith, h, e, e', get_elem?-in blob i)
    | inr (n, e') ↦ ground (arith, h, e, e', get_elem?-in blob i)
  ]
]

options_from_total :
    (fuel : ℕ) (blob : Bytes) (i : ℕ) (options : Options)
    → i ≤ length blob
    → length blob < fuel + i
    → is_none (options_from fuel blob i options) ≡ false
unfolding options_from
options_from_total zero blob i options inside h = ground (arith, inside, h)
options_from_total (suc fuel) blob i options inside h =
    elim (Option-cases (option_step blob i options)) [
      | inl e ↦ rw (e, options_from) refl
      | inr ((next, found), e) ↦
          rw (e, options_from)
            (let later = option_step-later blob i next options found e in
              options_from_total fuel blob next found later.1 (omega (arith, h, later.0)))
    ]

-- The loop of `parse_options` ends by itself on every blob, in at most one round for each byte and a last one.
pub options_from-ends :
    (blob : Bytes) → is_none (options_from (suc (length blob)) blob 0 []) ≡ false
options_from-ends blob =
    options_from_total (suc (length blob)) blob 0 [] (omega arith) (omega arith)
