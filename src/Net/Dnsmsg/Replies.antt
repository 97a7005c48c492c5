-- ===== src/Net/Dnsmsg/Replies.antt =====
-- The replies of src/msks/msks/net/dnsmsg.py, read back by its own readers.
use msks.Prelude.{
  ℕ, suc, ◌+◌, ◌/◌, ◌%◌, false, some, [], ◌∷◌, ◌++◌, ◌≡◌, refl, sym, ap, ◌∙◌, arith, ◌==◌, length,
  take, drop, append-nil, append_assoc,
}
use msks.Net.Bytes.{Bytes, word, from_bytes, dotted, drop-add, get_elem?-drop, length-drop_at}
use msks.Net.Packet.Encode.{Address, bytes_of}
use msks.Net.Dnsmsg.{
  pointer, name_token, pointer_token, follow, decode_step, Cursor, cursor_at, decode_loop,
  decode_name, or_unreadable, or_else, size, join_labels, parse_query, word_at, read_rr, a_record,
  answers_from, read_answers, skip_from, skip_questions, parse_a_records, fixed, nxdomain_for,
  nxdomain_of, a_answer_for, cons_some,
}
use msks.Net.Dnsmsg.Names.{
  encode_labels, IsName, length-size, decode_loop-encode, decode_name-encode,
}
use msks.Net.Dnsmsg.Queries.{
  Query, encode_query, encode_type, encode_header, question_of, behind_name, drop_name,
  question_inside, parse_query-encode, long_header,
}
use msks.Net.Dnsmsg.Addresses.{AreBytes, rdata_of-dotted}

above_zero : (n : ℕ) → ((12 + n) == 0) ≡ false
above_zero n = ground arith

two_above : (n : ℕ) → ((n + 2) == 0) ≡ false
two_above n = ground arith

or_else-pointer : (pos n : ℕ) → or_else (pos + 2) n ≡ pos + 2
or_else-pointer pos n = ground arith

name_token-pointer :
    (wire bytes : Bytes) (pos : ℕ)
    → drop pos wire ≡ 0xc0 ∷ 0x0c ∷ bytes
    → name_token wire pos ≡ pointer 12 (pos + 2)
unfolding name_token pointer_token
name_token-pointer wire bytes pos h =
    let inside = length-drop_at pos wire (0xc0 ∷ 0x0c ∷ []) bytes h (omega arith) in
    rw (get_elem?-drop pos wire, h) (ground (arith, inside))

decode_loop-pointer :
    (fuel : ℕ) (message : Bytes) (pos target after : ℕ)
    → name_token message pos ≡ pointer target after
    → (target == 0) ≡ false
    → decode_loop (suc fuel) message (cursor_at pos)
      ≡ decode_loop fuel message (record { pos = target; labels = []; jumps = 1; end = after })
unfolding decode_loop decode_step follow
decode_loop-pointer fuel message pos target after e some_target =
    rw (e, decode_loop, some_target) refl

module _ (k : Query) (name : IsName k.labels) (wire rest : Bytes)
    (there : drop 12 wire ≡ encode_labels k.labels ++ encode_type k rest) where
  skip_questions-there : word_at 4 wire ≡ 1 → skip_questions wire ≡ some (behind_name k + 4)
  unfolding skip_questions skip_from
  skip_questions-there one =
      rw
        (
          one,
          skip_from,
          decode_name-encode k.labels wire (encode_type k rest) 12 name there,
          above_zero (length (encode_labels k.labels)),
          question_inside k wire rest there,
        )
        (ap (λ r. some (r.1 + 4))
          (decode_name-encode k.labels wire (encode_type k rest) 12 name there))

  drop_question : drop (behind_name k + 4) wire ≡ rest
  drop_question =
      drop-add (behind_name k) 4 wire ∙ ap (drop 4) (drop_name k wire (encode_type k rest) there)

  -- The name of the record is the pointer to the question's.
  decode_name-pointer :
      (pos : ℕ) (bytes : Bytes)
      → drop pos wire ≡ 0xc0 ∷ 0x0c ∷ bytes
      → decode_name wire pos ≡ (join_labels k.labels, pos + 2)
  unfolding decode_name size
  decode_name-pointer pos bytes h =
      let d : Cursor = record { pos = 12; labels = []; jumps = 1; end = pos + 2 } in
      let loop =
        decode_loop-encode k.labels 299 wire (encode_type k rest) d name.2
          (omega (arith, name.1, length-size k.labels)) (omega (arith, name.1)) there in
      ap or_unreadable (
        decode_loop-pointer 299 wire pos 12 (pos + 2) (name_token-pointer wire bytes pos h) refl
        ∙ loop)
      ∙ ap (λ n. (join_labels k.labels, n)) (or_else-pointer pos (behind_name k))

four_bytes : (n : ℕ) → from_bytes 0 (word (n / 65536) (word (n % 65536) [])) ≡ n
four_bytes n = omega arith

read_rr-fixed :
    (wire : Bytes) (after ttl : ℕ) (ip : Address)
    → drop after wire ≡ fixed ttl 4 (bytes_of ip)
    → read_rr wire after ≡ (some (dotted (bytes_of ip), ttl), some (after + 10 + 4))
unfolding read_rr a_record
read_rr-fixed wire after ttl ip h =
    let inside =
      length-drop_at after wire (fixed ttl 4 (bytes_of ip)) []
        (h ∙ sym (append-nil (fixed ttl 4 (bytes_of ip)))) (omega arith) in
    let type_at = ap (λ bytes. from_bytes 0 (take 2 bytes)) h in
    let ttl_at =
      ap (λ bytes. from_bytes 0 (take 4 bytes)) (drop-add after 4 wire ∙ ap (drop 4) h)
      ∙ four_bytes ttl in
    let size_at =
      ap (λ bytes. from_bytes 0 (take 2 bytes)) (drop-add after 8 wire ∙ ap (drop 8) h) in
    let data_at = ap (take 4) (drop-add after 10 wire ∙ ap (drop 10) h) in
    let head_at = ap (λ bytes. length (take 10 bytes)) h in
    rw (size_at, type_at, ttl_at, data_at, head_at) (ground (arith, inside))

-- The query's header and question as a reply carries them.
abbrev pub reply_to : Query → ℕ → ℕ → Bytes → Query
reply_to k flags ancount rest = record k {
  flags = flags;
  ancount = ancount;
  nscount = 0;
  arcount = 0;
  rest = rest;
}

abbrev pub nxdomain_reply : Query → Query
nxdomain_reply k = reply_to k 0x8183 0 []

abbrev pub a_reply : Query → Address → ℕ → Query
a_reply k ip ttl = reply_to k 0x8180 1 (0xc0 ∷ 0x0c ∷ fixed ttl 4 (bytes_of ip))

module _ (k : Query) (name : IsName k.labels) where
  nxdomain_for-encode : nxdomain_for (encode_query k) ≡ encode_query (nxdomain_reply k)
  unfolding nxdomain_for
  nxdomain_for-encode = ap (nxdomain_of (encode_query k)) (parse_query-encode k name)

  a_answer_for-encode :
      (ip : Address) (ttl : ℕ)
      → AreBytes (bytes_of ip)
      → a_answer_for (encode_query k) (dotted (bytes_of ip)) ttl ≡ encode_query (a_reply k ip ttl)
  unfolding a_answer_for
  a_answer_for-encode ip ttl small =
      rw (parse_query-encode k name, rdata_of-dotted ip.a (ip.b ∷ ip.c ∷ ip.d ∷ []) small)
        (ap (encode_header (a_reply k ip ttl))
          (append_assoc (encode_labels k.labels) (encode_type k []) (a_reply k ip ttl).rest))

  parse_a_records-nxdomain : parse_a_records (encode_query (nxdomain_reply k)) ≡ []
  unfolding parse_a_records read_answers answers_from
  parse_a_records-nxdomain =
      rw
        (
          long_header (nxdomain_reply k),
          skip_questions-there (nxdomain_reply k) name (encode_query (nxdomain_reply k)) [] refl
              refl,
        )
        refl

  answers_from-pointer :
      (wire : Bytes) (pos ttl : ℕ) (ip : Address)
      → drop 12 wire
        ≡ encode_labels k.labels ++ encode_type k (0xc0 ∷ 0x0c ∷ fixed ttl 4 (bytes_of ip))
      → drop pos wire ≡ 0xc0 ∷ 0x0c ∷ fixed ttl 4 (bytes_of ip)
      → answers_from 1 wire pos ≡ (dotted (bytes_of ip), ttl) ∷ []
  unfolding answers_from
  answers_from-pointer wire pos ttl ip there h =
      let decoded =
        decode_name-pointer k name wire (0xc0 ∷ 0x0c ∷ fixed ttl 4 (bytes_of ip)) there pos
          (fixed ttl 4 (bytes_of ip)) h in
      let found =
        ap (λ r. read_rr wire r.1) decoded
        ∙ read_rr-fixed wire (pos + 2) ttl ip (drop-add pos 2 wire ∙ ap (drop 2) h) in
      rw (answers_from, decoded, two_above pos, found) (ap (λ r. cons_some r.0 []) found)

  parse_a_records-reply :
      (ip : Address) (ttl : ℕ)
      → parse_a_records (encode_query (a_reply k ip ttl)) ≡ (dotted (bytes_of ip), ttl) ∷ []
  unfolding parse_a_records read_answers
  parse_a_records-reply ip ttl =
      rw
        (
          long_header (a_reply k ip ttl),
          skip_questions-there (a_reply k ip ttl) name (encode_query (a_reply k ip ttl))
              (a_reply k ip ttl).rest refl refl,
        )
        (answers_from-pointer (encode_query (a_reply k ip ttl)) (behind_name k + 4) ttl ip refl (
          drop_question (a_reply k ip ttl) name (encode_query (a_reply k ip ttl))
            (a_reply k ip ttl).rest refl))

-- For a query of one question, under a name of whole labels, the two replies read back: each parses
-- to the question asked, under its id and with the flags of its kind; the refusal has no address;
-- the answer has one, the address and the time to live that it was built from, when the address
-- is given by its four bytes.
pub replies-Read :
    (k : Query) (ip : Address) (ttl : ℕ)
    → IsName k.labels
    → AreBytes (bytes_of ip)
    → (parse_query (nxdomain_for (encode_query k)) ≡ some (question_of (nxdomain_reply k)))
      × (parse_a_records (nxdomain_for (encode_query k)) ≡ [])
      × (parse_query (a_answer_for (encode_query k) (dotted (bytes_of ip)) ttl)
          ≡ some (question_of (a_reply k ip ttl)))
      × (parse_a_records (a_answer_for (encode_query k) (dotted (bytes_of ip)) ttl)
          ≡ (dotted (bytes_of ip), ttl) ∷ [])
replies-Read k ip ttl name small = (
  ap parse_query (nxdomain_for-encode k name) ∙ parse_query-encode (nxdomain_reply k) name,
  ap parse_a_records (nxdomain_for-encode k name) ∙ parse_a_records-nxdomain k name,
  ap parse_query (a_answer_for-encode k name ip ttl small)
      ∙ parse_query-encode (a_reply k ip ttl) name,
  ap parse_a_records (a_answer_for-encode k name ip ttl small)
      ∙ parse_a_records-reply k name ip ttl,
)
