-- ===== src/Net/Dnsmsg/Queries.antt =====
-- The question reader of src/msks/msks/net/dnsmsg.py on a query that is built field by field.
use msks.Prelude.{
  ℕ, ◌+◌, ◌*◌, ◌/◌, ◌%◌, false, some, List, [], ◌∷◌, ◌++◌, Text, ◌≡◌, refl, sym, ap, ◌∙◌, arith,
  ltb, length, length-append, take, drop, map, append_assoc, join, lower, lower_code,
}
use msks.Net.Bytes.{Bytes, word, from_bytes, drop-append, take-append, drop-add, length-drop_at}
use msks.Net.Dnsmsg.{join_labels, parse_query, question_at, Question, word_at, is_empty, header_len}
use msks.Net.Dnsmsg.Names.{encode_labels, IsName, decode_name-encode}

-- One question in a message, with anything behind it.
pub record Query : Type 0 where
  pub id : ℕ
  pub flags : ℕ
  pub ancount : ℕ
  pub nscount : ℕ
  pub arcount : ℕ
  pub labels : List Bytes
  pub qtype : ℕ
  pub qclass : ℕ
  pub rest : Bytes

abbrev pub encode_type : Query → Bytes → Bytes
encode_type k rest = word k.qtype (word k.qclass rest)

abbrev pub encode_header : Query → Bytes → Bytes
encode_header k bytes =
    word k.id (word k.flags (word 1 (word k.ancount (word k.nscount (word k.arcount bytes)))))

abbrev pub encode_query : Query → Bytes
encode_query k = encode_header k (encode_labels k.labels ++ encode_type k k.rest)

-- The query cut behind its question.
abbrev pub encode_question : Query → Bytes
encode_question k = encode_header k (encode_labels k.labels ++ encode_type k [])

abbrev pub question_of : Query → Question
question_of k = record {
  id = k.id;
  name = join_labels k.labels;
  qtype = k.qtype;
  qclass = k.qclass;
  wire = encode_question k;
}

-- the offset behind the name
abbrev pub behind_name : Query → ℕ
behind_name k = 12 + length (encode_labels k.labels)

pub big_endian : (n : ℕ) → (0 * 256 + n / 256) * 256 + n % 256 ≡ n
big_endian n = omega arith

-- A word that stands at an offset is read there.
pub word_at-word :
    (wire rest : Bytes) (low n : ℕ) → drop low wire ≡ word n rest → word_at low wire ≡ n
word_at-word wire rest low n h = ap (λ bytes. from_bytes 0 (take 2 bytes)) h ∙ big_endian n

pub drop_behind :
    (wire rest : Bytes) (low n : ℕ) → drop low wire ≡ word n rest → drop (low + 2) wire ≡ rest
drop_behind wire rest low n h = drop-add low 2 wire ∙ ap (drop 2) h

pub drop_name :
    (k : Query) (wire rest : Bytes)
    → drop 12 wire ≡ encode_labels k.labels ++ rest
    → drop (behind_name k) wire ≡ rest
drop_name k wire rest h =
    drop-add 12 (length (encode_labels k.labels)) wire
    ∙ ap (drop (length (encode_labels k.labels))) h
    ∙ drop-append (length (encode_labels k.labels)) (encode_labels k.labels) rest refl

-- The message holds the whole question.
pub question_inside :
    (k : Query) (wire rest : Bytes)
    → drop 12 wire ≡ encode_labels k.labels ++ encode_type k rest
    → ltb (length wire) (behind_name k + 4) ≡ false
question_inside k wire rest h = ground (
  arith,
  length-drop_at (behind_name k) wire (encode_type k []) rest
      (drop_name k wire (encode_type k rest) h) (omega arith),
)

is_empty-map : (f : ℕ → ℕ) (t : Text) → is_empty (map f t) ≡ is_empty t
is_empty-map f [] = refl
is_empty-map f (c ∷ t) = refl

is_empty-join : (labels : List Bytes) → IsName labels → is_empty (join (b'.' ∷ []) labels) ≡ false
unfolding join
is_empty-join [] name = elim name.0 [ ]
is_empty-join ([] ∷ labels) name = elim name.2.0 [ ]
is_empty-join ((b ∷ l) ∷ []) name = refl
is_empty-join ((b ∷ l) ∷ m ∷ labels) name = refl

pub is_empty-join_labels :
    (labels : List Bytes) → IsName labels → is_empty (join_labels labels) ≡ false
unfolding join_labels lower
is_empty-join_labels labels name =
    is_empty-map lower_code (join (b'.' ∷ []) labels) ∙ is_empty-join labels name

question_wire : (k : Query) → encode_query k ≡ encode_question k ++ k.rest
question_wire k =
    ap (encode_header k) (sym (append_assoc (encode_labels k.labels) (encode_type k []) k.rest))

length-question : (k : Query) → length (encode_question k) ≡ behind_name k + 4
length-question k = omega (arith, length-append (encode_labels k.labels) (encode_type k []))

question_at-encode :
    (k : Query)
    → IsName k.labels
    → question_at (encode_query k) (join_labels k.labels, behind_name k) ≡ some (question_of k)
question_at-encode k name =
    let there = drop_name k (encode_query k) (encode_type k k.rest) refl in
    let cut =
      ap (take (behind_name k + 4)) (question_wire k)
      ∙ take-append (behind_name k + 4) (encode_question k) k.rest (length-question k) in
    rw
      (
        is_empty-join_labels k.labels name,
        question_inside k (encode_query k) k.rest refl,
        word_at-word (encode_query k) (word k.qclass k.rest) (behind_name k) k.qtype there,
        word_at-word (encode_query k) k.rest (behind_name k + 2) k.qclass
            (drop_behind (encode_query k) (word k.qclass k.rest) (behind_name k) k.qtype there),
        cut,
        big_endian k.id,
      )
      refl

pub long_header : (k : Query) → ltb (length (encode_query k)) header_len ≡ false
long_header k = ground arith

-- A message that asks one question, under a name of whole labels, parses to that question: its id,
-- the name in lower case, the type and the class, and the wire cut behind the question, whatever
-- the counts of the other sections and the bytes behind are.
pub parse_query-encode :
    (k : Query) → IsName k.labels → parse_query (encode_query k) ≡ some (question_of k)
unfolding parse_query
parse_query-encode k name =
    rw
      (
        long_header k,
        decode_name-encode k.labels (encode_query k) (encode_type k k.rest) 12 name refl,
      )
      (question_at-encode k name)
