-- ===== src/Net/Dhcp.antt =====
-- The DHCP codec and server of src/msks/msks/net/dhcp.py. The sockets are I/O: a datagram is an
-- argument, and a reply a result.
pub mod Walk
pub mod Options
pub mod Layout
pub mod Offers
use msks.Prelude.{
  ℕ, zero, suc, ◌+◌, ◌-◌, ◌/◌, ◌%◌, Bool, true, false, not, ◌&&◌, ◌||◌, Option, none, some, List,
  [], ◌∷◌, ◌++◌, Text, ◌==◌, ==_iff, ltb, if◌then◌else◌, length, take, drop, get_elem?, text_eq,
  codes,
}
use msks.Prelude.Dict.{Dict, Eq, get, put, text_key}
use msks.Net.Bytes.{Bytes, slice, word, from_bytes}
use msks.Net.Dnsmsg.{rdata_of}

instance abbrev pub nat_key : Eq ℕ
nat_key = record { beq = λ a b. a == b; beq_iff = ==_iff }

abbrev pub Options : Type 0
Options = Dict ℕ Bytes

abbrev pub magic : Bytes
magic = 0x63 ∷ 0x82 ∷ 0x53 ∷ 0x63 ∷ []

abbrev pub min_packet : ℕ
min_packet = 300

pub record DhcpRequest : Type 0 where
  pub xid : Bytes
  pub mac : Bytes
  pub flags : Bytes
  pub options : Options

-- the index behind an option whose length byte is read at `i`
abbrev pub end_of : Bytes → ℕ → Option ℕ → ℕ
end_of blob i none = length blob + 1
end_of blob i (some n) = i + 1 + n

abbrev pub or_zero : Option ℕ → ℕ
or_zero none = 0
or_zero (some n) = n

-- `_option_value`; `options` is the dict before, and the result has the next index and the dict.
unfoldable pub option_value : Bytes → ℕ → ℕ → Options → Option (ℕ × Options)
option_value blob i code options =
    let end = end_of blob i (get_elem? blob i) in
    if ltb (length blob) end
    then none
    else some (end, put code (slice (i + 1) (or_zero (get_elem? blob i)) blob) options)

abbrev pub option_at : Bytes → ℕ → Options → Option ℕ → Option (ℕ × Options)
option_at blob i options none = none
option_at blob i options (some code) =
    if code == 255
    then none
    else if code == 0
    then some (i + 1, options)
    else option_value blob (i + 1) code options

-- `_option_step`
unfoldable pub option_step : Bytes → ℕ → Options → Option (ℕ × Options)
unfolding option_value
option_step blob i options = option_at blob i options (get_elem? blob i)

-- The loop of `parse_options`; `none` is no result of the code: the fuel ran out.
unfoldable pub options_from : ℕ → Bytes → ℕ → Options → Option Options
unfolding option_step
options_from zero blob i options = none
options_from (suc fuel) blob i options = elim (option_step blob i options) [
  | none ↦ some options
  | some (next, found) ↦ options_from fuel blob next found
]

abbrev pub or_empty : Option Options → Options
or_empty none = []
or_empty (some options) = options

-- The index grows with every step, so the length bounds the rounds.
unfoldable pub parse_options : Bytes → Options
unfolding options_from
parse_options blob = or_empty (options_from (suc (length blob)) blob 0 [])

abbrev pub is_dhcp : Bytes → Bool
is_dhcp bytes = not (ltb (length bytes) 240) && text_eq (slice 236 4 bytes) magic

abbrev pub is_request : Bytes → Bool
is_request bytes = text_eq (take 1 bytes) (1 ∷ [])

unfoldable pub parse_request : Bytes → Option DhcpRequest
unfolding parse_options
parse_request bytes =
    if not (is_dhcp bytes)
    then none
    else if not (is_request bytes)
    then none
    else some (record {
      xid = slice 4 4 bytes;
      mac = slice 28 6 bytes;
      flags = slice 10 2 bytes;
      options = parse_options (drop 240 bytes);
    })

unfoldable pub encode_options : List (ℕ × Bytes) → Bytes
encode_options [] = 255 ∷ []
encode_options ((code, value) ∷ pairs) = code ∷ length value ∷ value ++ encode_options pairs

-- `b"\0" * n`
unfoldable pub zeros : ℕ → Bytes
zeros zero = []
zeros (suc n) = 0 ∷ zeros n

-- 32 bits in network order
abbrev pub long : ℕ → Bytes → Bytes
long n bytes = word (n / 65536) (word (n % 65536) bytes)

-- `socket.inet_aton` of an address with four decimal parts
abbrev pub inet_aton : Text → Bytes
inet_aton ip = rdata_of ip

pub record DhcpServer : Type 0 where
  pub tap_ip : Text
  pub guest_ip : Text
  pub netmask : Text
  pub lease_s : ℕ

unfoldable pub reply_options : DhcpServer → ℕ → List (ℕ × Bytes)
reply_options server msg_type =
    (53, msg_type ∷ [])
    ∷ (54, inet_aton server.tap_ip)
    ∷ (51, long server.lease_s [])
    ∷ (1, inet_aton server.netmask)
    ∷ (3, inet_aton server.tap_ip)
    ∷ (6, inet_aton server.tap_ip)
    ∷ []

-- the bytes before the options, from the first
unfoldable pub reply_head : DhcpServer → DhcpRequest → Bytes → Bytes
reply_head server request bytes =
    2
    ∷ 1
    ∷ 6
    ∷ 0
    ∷ long (from_bytes 0 request.xid) (
        word 0 (
          word (from_bytes 0 request.flags) (
            0
            ∷ 0
            ∷ 0
            ∷ 0
            ∷ (inet_aton server.guest_ip
                ++ (inet_aton server.tap_ip
                    ++ 0
                      ∷ 0
                      ∷ 0
                      ∷ 0
                      ∷ (request.mac ++ (zeros 10 ++ (zeros 192 ++ (magic ++ bytes)))))))))

-- `packet.ljust(n, b"\0")`
abbrev pub ljust : ℕ → Bytes → Bytes
ljust n packet = packet ++ zeros (n - length packet)

unfoldable pub build_reply : DhcpServer → DhcpRequest → ℕ → Bytes
unfolding reply_head reply_options encode_options zeros
build_reply server request msg_type =
    ljust min_packet (reply_head server request (encode_options (reply_options server msg_type)))

abbrev pub broadcast_bit : Bytes → Bool
broadcast_bit [] = false
broadcast_bit (b ∷ bytes) = b / 128 % 2 == 1

-- `reply_dest` on an address and its port; a request has two bytes of flags
unfoldable pub reply_dest : Text × ℕ → Bytes → Text × ℕ
reply_dest (ip, port) flags =
    if text_eq ip (codes "0.0.0.0") || broadcast_bit flags
    then (codes "255.255.255.255", 68)
    else (ip, port)

abbrev pub is_opt : Option Bytes → Bytes → Bool
is_opt none value = false
is_opt (some v) value = text_eq v value

abbrev pub wanted_by : DhcpServer → Option Bytes → Option Bytes → Bool
wanted_by server (some server_id) wanted = text_eq server_id (inet_aton server.tap_ip)
wanted_by server none none = true
wanted_by server none (some wanted) = text_eq wanted (inet_aton server.guest_ip)

unfoldable pub request_for_us : DhcpServer → DhcpRequest → Bool
request_for_us server request = wanted_by server (get 54 request.options) (get 50 request.options)

abbrev pub reply_to : DhcpServer → Option DhcpRequest → Option Bytes
reply_to server none = none
reply_to server (some request) =
    if is_opt (get 53 request.options) (1 ∷ [])
    then some (build_reply server request 2)
    else if is_opt (get 53 request.options) (3 ∷ []) && request_for_us server request
    then some (build_reply server request 5)
    else none

unfoldable pub reply_for : DhcpServer → Bytes → Option Bytes
unfolding parse_request build_reply request_for_us
reply_for server bytes = reply_to server (parse_request bytes)

-- `_answer`: what is sent, and to whom
abbrev pub addressed : Text × ℕ → Option Bytes → Option DhcpRequest → Option (Bytes × (Text × ℕ))
addressed addr (some reply) (some request) = some (reply, reply_dest addr request.flags)
addressed addr _ _ = none

unfoldable pub answer : DhcpServer → Bytes → Text × ℕ → Option (Bytes × (Text × ℕ))
unfolding reply_for reply_dest
answer server bytes addr = addressed addr (reply_for server bytes) (parse_request bytes)
