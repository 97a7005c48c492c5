-- ===== src/Net/Dhcp/Options.antt =====
-- The options of src/msks/msks/net/dhcp.py, encoded and parsed.
use msks.Prelude.{
  ℕ, zero, suc, ◌+◌, ◌≤◌, ◌<◌, none, some, List, [], ◌∷◌, ◌++◌, ◌≡◌, refl, ap, ◌∙◌, arith, length,
  length-append, take, drop, append_assoc,
}
use msks.Prelude.Dict.{put}
use msks.Net.Bytes.{Bytes, drop-append, take-append, drop-add, get_elem?-drop, length-drop_at}
use msks.Net.Dhcp.{
  Options, nat_key, option_step, option_value, options_from, or_empty, parse_options,
  encode_options,
}

-- Codes that are neither the pad nor the end, and values that one byte measures.
abbrev pub AreOptions : List (ℕ × Bytes) → Type 0
AreOptions [] = Unit
AreOptions ((code, value) ∷ pairs) =
    (0 < code) × (code < 255) × (length value ≤ 255) × AreOptions pairs

-- The dict of the pairs, in order.
abbrev pub put_all : List (ℕ × Bytes) → Options → Options
put_all [] options = options
put_all ((code, value) ∷ pairs) options = put_all pairs (put code value options)

option_step-end :
    (blob rest : Bytes) (i : ℕ) (options : Options)
    → drop i blob ≡ 255 ∷ rest
    → option_step blob i options ≡ none
unfolding option_step
option_step-end blob rest i options h = rw (get_elem?-drop i blob, h) refl

option_step-value :
    (blob value rest : Bytes) (i code : ℕ) (options : Options)
    → 0 < code
    → code < 255
    → drop i blob ≡ code ∷ length value ∷ value ++ rest
    → option_step blob i options ≡ some (i + 1 + 1 + length value, put code value options)
unfolding option_step option_value
option_step-value blob value rest i code options some_code low h =
    let measured = drop-add i 1 blob ∙ ap (drop 1) h in
    let valued = drop-add (i + 1) 1 blob ∙ ap (drop 1) measured in
    let found = ap (take (length value)) valued ∙ take-append (length value) value rest refl in
    let inside = length-drop_at i blob (code ∷ length value ∷ value) rest h (omega arith) in
    rw (get_elem?-drop i blob, h, get_elem?-drop (i + 1) blob, measured, found)
      (ground (arith, inside))

length-pairs : (pairs : List (ℕ × Bytes)) → length pairs < length (encode_options pairs)
unfolding encode_options
length-pairs [] = omega arith
length-pairs ((code, value) ∷ pairs) =
    omega (arith, length-append value (encode_options pairs), length-pairs pairs)

options_from-encode_options :
    (pairs : List (ℕ × Bytes)) (fuel : ℕ) (blob rest : Bytes) (i : ℕ) (options : Options)
    → AreOptions pairs
    → length pairs < fuel
    → drop i blob ≡ encode_options pairs ++ rest
    → options_from fuel blob i options ≡ some (put_all pairs options)
unfolding options_from encode_options
options_from-encode_options pairs zero blob rest i options are fueled h = elim fueled [ ]
options_from-encode_options [] (suc fuel) blob rest i options are fueled h =
    rw (option_step-end blob rest i options h, options_from) refl
options_from-encode_options ((code, value) ∷ pairs) (suc fuel) blob rest i options are fueled h =
    let there =
      h
      ∙ ap (λ bytes. code ∷ length value ∷ bytes)
          (append_assoc value (encode_options pairs) rest) in
    let behind =
      drop-add (i + 1 + 1) (length value) blob
      ∙ ap (drop (length value))
          (drop-add (i + 1) 1 blob ∙ ap (drop 1) (drop-add i 1 blob ∙ ap (drop 1) there))
      ∙ drop-append (length value) value (encode_options pairs ++ rest) refl in
    rw
      (
        option_step-value blob value (encode_options pairs ++ rest) i code options are.0 are.1
            there,
        options_from,
      )
      (options_from-encode_options pairs fuel blob rest (i + 1 + 1 + length value)
        (put code value options) are.3 (omega (arith, fueled)) behind)

-- Options that are encoded parse to the dict of their pairs, whatever stands behind the end marker.
pub parse_options-encode_options :
    (pairs : List (ℕ × Bytes)) (rest : Bytes)
    → AreOptions pairs
    → parse_options (encode_options pairs ++ rest) ≡ put_all pairs []
unfolding parse_options
parse_options-encode_options pairs rest are = ap or_empty (
    options_from-encode_options pairs (suc (length (encode_options pairs ++ rest)))
      (encode_options pairs ++ rest) rest 0 [] are
      (omega (arith, length-append (encode_options pairs) rest, length-pairs pairs)) refl)
