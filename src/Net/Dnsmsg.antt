-- ===== src/Net/Dnsmsg.antt =====
-- The DNS codec of src/msks/msks/net/dnsmsg.py: names, questions, A records and the replies that the
-- forwarder builds. A read behind a length test is an indexing that gives `none` past the end.
use msks.Prelude.{
  ℕ, zero, suc, ◌+◌, ◌/◌, ◌%◌, Bool, true, false, not, ◌||◌, Option, none, some, List, [], ◌∷◌,
  ◌++◌, Text, length, get_elem?, take, drop, ltb, ◌==◌, if◌then◌else◌, lower, join, split, int_of,
  map,
}
use msks.Net.Bytes.{Bytes, slice, from_bytes, dotted, word}
pub mod Total
pub mod Names
pub mod Queries
pub mod Addresses
pub mod Replies

abbrev pub header_len : ℕ
header_len = 12

abbrev pub max_name_jumps : ℕ
max_name_jumps = 16

abbrev pub max_name_len : ℕ
max_name_len = 253

-- `none` as the kind of a token is `malformed`.
pub data Token : Type 0 where
  malformed : Token
  end_at : ℕ → Token
  pointer : ℕ → ℕ → Token
  label : ℕ → Token

unfoldable pub pointer_token : Bytes → ℕ → Token
pointer_token message pos =
    if ltb (length message) (pos + 2)
    then malformed
    else pointer (from_bytes 0 (slice pos 2 message) % 0x4000) (pos + 2)

-- The two high bits of a length byte tell the kinds apart.
abbrev pub token_of : Bytes → ℕ → Option ℕ → Token
token_of message pos none = malformed
token_of message pos (some byte) =
    if byte == 0
    then end_at (pos + 1)
    else if byte / 64 % 4 == 3
    then pointer_token message pos
    else if byte / 64 % 4 == 0
    then label byte
    else malformed

unfoldable pub name_token : Bytes → ℕ → Token
unfolding pointer_token
name_token message pos = token_of message pos (get_elem? message pos)

-- `sum(len(label) + 1 for label in labels)`
unfoldable pub size : List Bytes → ℕ
size [] = 0
size (l ∷ labels) = suc (length l) + size labels

-- The variables of the loop; `pos` is 0 where a step refuses.
pub record Cursor : Type 0 where
  pub pos : ℕ
  pub labels : List Bytes
  pub jumps : ℕ
  pub end : ℕ

abbrev pub or_else : ℕ → ℕ → ℕ
or_else end after = if end == 0 then after else end

unfoldable pub follow : ℕ → ℕ → Cursor → Cursor
follow target after c = record c {
  pos = if ltb max_name_jumps (suc c.jumps) then 0 else target;
  jumps = suc c.jumps;
  end = or_else c.end after;
}

unfoldable pub take_label : Bytes → ℕ → Cursor → Cursor
take_label message n c =
    if ltb (length message) (c.pos + 1 + n)
    then record c { pos = 0 }
    else if ltb max_name_len (size c.labels + n)
    then record c { pos = 0 }
    else record c { pos = c.pos + 1 + n; labels = c.labels ++ slice (c.pos + 1) n message ∷ [] }

-- `decode_step` on a token that does not end the name
unfoldable pub decode_step : Bytes → Token → Cursor → Cursor
unfolding follow take_label
decode_step message malformed c = record c { pos = 0 }
decode_step message (end_at after) c = record c { pos = 0 }
decode_step message (pointer target after) c = follow target after c
decode_step message (label n) c = take_label message n c

unfoldable pub join_labels : List Bytes → Text
join_labels labels = lower (join (b'.' ∷ []) labels)

unfoldable pub finish_name : Cursor → ℕ → Text × ℕ
unfolding join_labels
finish_name c after = (join_labels c.labels, or_else c.end after)

abbrev pub unreadable : Text × ℕ
unreadable = ([], 0)

-- The loop of `decode_name`; `none` is no result of the code: the fuel ran out.
unfoldable pub decode_loop : ℕ → Bytes → Cursor → Option (Text × ℕ)
unfolding name_token finish_name decode_step
decode_loop zero message c = none
decode_loop (suc fuel) message c = elim (name_token message c.pos) [
  | malformed ↦ some unreadable
  | end_at after ↦ some (finish_name c after)
  | pointer target after ↦
      let d = decode_step message (pointer target after) c in
      elim (d.pos == 0) [ true ↦ some unreadable | false ↦ decode_loop fuel message d ]
  | label n ↦
      let d = decode_step message (label n) c in
      elim (d.pos == 0) [ true ↦ some unreadable | false ↦ decode_loop fuel message d ]
]

abbrev pub decode_fuel : ℕ
decode_fuel = 300

abbrev pub or_unreadable : Option (Text × ℕ) → Text × ℕ
or_unreadable none = unreadable
or_unreadable (some r) = r

abbrev pub cursor_at : ℕ → Cursor
cursor_at offset = record { pos = offset; labels = []; jumps = 0; end = 0 }

unfoldable pub decode_name : Bytes → ℕ → Text × ℕ
unfolding decode_loop
decode_name message offset = or_unreadable (decode_loop decode_fuel message (cursor_at offset))

pub record Question : Type 0 where
  pub id : ℕ
  pub name : Text
  pub qtype : ℕ
  pub qclass : ℕ
  pub wire : Bytes

-- `int.from_bytes(wire[low:low + 2], "big")`
abbrev pub word_at : ℕ → Bytes → ℕ
word_at low wire = from_bytes 0 (slice low 2 wire)

abbrev pub is_empty : Text → Bool
is_empty [] = true
is_empty (c ∷ t) = false

-- `parse_query` after its name
abbrev pub question_at : Bytes → Text × ℕ → Option Question
question_at wire (name, after) =
    if is_empty name || ltb (length wire) (after + 4)
    then none
    else some (record {
      id = word_at 0 wire;
      name = name;
      qtype = word_at after wire;
      qclass = word_at (after + 2) wire;
      wire = take (after + 4) wire;
    })

unfoldable pub parse_query : Bytes → Option Question
unfolding decode_name
parse_query wire =
    if ltb (length wire) header_len
    then none
    else if not (word_at 4 wire == 1)
    then none
    else question_at wire (decode_name wire header_len)

-- An address and its time to live, in seconds.
abbrev pub Record : Type 0
Record = Text × ℕ

abbrev pub rr_fixed : ℕ
rr_fixed = 10

unfoldable pub a_record : Bytes → ℕ → ℕ → ℕ → ℕ → Option Record
a_record wire rtype ttl rdlength rdata_at =
    if not (rtype == 1) || not (rdlength == 4)
    then none
    else some (dotted (slice rdata_at 4 wire), ttl)

-- `read_rr`: the record and the next offset, each of which may be missing
unfoldable pub read_rr : Bytes → ℕ → Option Record × Option ℕ
unfolding a_record
read_rr wire after =
    let rdlength = word_at (after + 8) wire in
    let rdata_at = after + rr_fixed in
    if ltb (length (slice after rr_fixed wire)) rr_fixed
    then (none, none)
    else if ltb (length wire) (rdata_at + rdlength)
    then (none, none)
    else (
      a_record wire (word_at after wire) (from_bytes 0 (slice (after + 4) 4 wire)) rdlength
          rdata_at,
      some (rdata_at + rdlength),
    )

abbrev pub cons_some : Option Record → List Record → List Record
cons_some none records = records
cons_some (some r) records = r ∷ records

-- The loop of `read_answers`; the records from here on.
unfoldable pub answers_from : ℕ → Bytes → ℕ → List Record
unfolding decode_name read_rr
answers_from zero wire pos = []
answers_from (suc n) wire pos =
    let after = (decode_name wire pos).1 in
    let (found, next) = read_rr wire after in
    elim (after == 0) [
      | true ↦ []
      | false ↦ elim next [
        | none ↦ cons_some found []
        | some pos' ↦ cons_some found (answers_from n wire pos')
      ]
    ]

unfoldable pub read_answers : Bytes → ℕ → List Record
unfolding answers_from
read_answers wire pos = answers_from (word_at 6 wire) wire pos

-- The loop of `skip_questions`.
unfoldable pub skip_from : ℕ → Bytes → ℕ → Option ℕ
unfolding decode_name
skip_from zero wire pos = some pos
skip_from (suc n) wire pos =
    let after = (decode_name wire pos).1 in
    elim (after == 0 || ltb (length wire) (after + 4)) [
      | true ↦ none
      | false ↦ skip_from n wire (after + 4)
    ]

unfoldable pub skip_questions : Bytes → Option ℕ
unfolding skip_from
skip_questions wire = skip_from (word_at 4 wire) wire header_len

abbrev pub answers_at : Bytes → Option ℕ → List Record
answers_at wire none = []
answers_at wire (some pos) = read_answers wire pos

unfoldable pub parse_a_records : Bytes → List Record
unfolding skip_questions read_answers
parse_a_records wire =
    if ltb (length wire) header_len then [] else answers_at wire (skip_questions wire)

-- `struct.pack("!HHHHHH", …)`
abbrev pub header : ℕ → ℕ → ℕ → ℕ → Bytes → Bytes
header id flags qdcount ancount bytes =
    word id (word flags (word qdcount (word ancount (word 0 (word 0 bytes)))))

abbrev pub nxdomain_of : Bytes → Option Question → Bytes
nxdomain_of query none = take 2 query ++ word 0x8183 (word 0 (word 0 (word 0 (word 0 []))))
nxdomain_of query (some q) = header q.id 0x8183 1 0 (drop header_len q.wire)

unfoldable pub nxdomain_for : Bytes → Bytes
unfolding parse_query
nxdomain_for query = nxdomain_of query (parse_query query)

-- `bytes(int(part) for part in ip.split("."))`
unfoldable pub rdata_of : Text → Bytes
rdata_of ip = map int_of (split b'.' ip)

-- `struct.pack(">HHIH", TYPE_A, 1, ttl, n)`
abbrev pub fixed : ℕ → ℕ → Bytes → Bytes
fixed ttl n bytes = word 1 (word 1 (word (ttl / 65536) (word (ttl % 65536) (word n bytes))))

abbrev pub answer_of : Bytes → Text → ℕ → Option Question → Bytes
answer_of query ip ttl none = nxdomain_of query none
answer_of query ip ttl (some q) =
    let rdata = rdata_of ip in
    header q.id 0x8180 1 1 (drop header_len q.wire ++ 0xc0 ∷ 0x0c ∷ fixed ttl (length rdata) rdata)

unfoldable pub a_answer_for : Bytes → Text → ℕ → Bytes
unfolding parse_query rdata_of
a_answer_for query ip ttl = answer_of query ip ttl (parse_query query)

unfoldable pub rewrite_id : Bytes → ℕ → Bytes
rewrite_id answer id = word id (drop 2 answer)
