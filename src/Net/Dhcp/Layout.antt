-- ===== src/Net/Dhcp/Layout.antt =====
-- The layout of a reply of src/msks/msks/net/dhcp.py, read back field by field.
use msks.Prelude.{
  ℕ, zero, suc, ◌+◌, ◌-◌, ◌≤◌, List, [], ◌∷◌, ◌++◌, ◌≡◌, refl, ap, ◌∙◌, arith, length,
  length-append, take, drop, append_assoc,
}
use msks.Prelude.Dict.{put}
use msks.Net.Bytes.{Bytes, slice, word, from_bytes, dotted, drop-append, take-append, drop-add}
use msks.Net.Packet.Encode.{Address, bytes_of}
use msks.Net.Dnsmsg.{rdata_of}
use msks.Net.Dnsmsg.Addresses.{AreBytes, rdata_of-dotted}
use msks.Net.Dhcp.{
  nat_key, magic, min_packet, DhcpRequest, DhcpServer, parse_options, encode_options, zeros, long,
  ljust, reply_options, reply_head, build_reply,
}
use msks.Net.Dhcp.Options.{AreOptions, put_all, parse_options-encode_options}

length-zeros : (n : ℕ) → length (zeros n) ≡ n
unfolding zeros
length-zeros zero = refl
length-zeros (suc n) = omega (arith, length-zeros n)

drop_past : (n m : ℕ) (xs ys : Bytes) → length xs ≡ n → drop (n + m) (xs ++ ys) ≡ drop m ys
drop_past n m xs ys h = drop-add n m (xs ++ ys) ∙ ap (drop m) (drop-append n xs ys h)

-- The bytes of a reply from the hardware address on.
abbrev body : Bytes → Bytes → Bytes
body mac bytes = mac ++ (zeros 10 ++ (zeros 192 ++ (magic ++ bytes)))

body-append : (mac bytes pad : Bytes) → body mac bytes ++ pad ≡ body mac (bytes ++ pad)
body-append mac bytes pad =
    append_assoc mac (zeros 10 ++ (zeros 192 ++ (magic ++ bytes))) pad
    ∙ ap (◌++◌ mac) (
        append_assoc (zeros 10) (zeros 192 ++ (magic ++ bytes)) pad
        ∙ ap (◌++◌ (zeros 10)) (append_assoc (zeros 192) (magic ++ bytes) pad))

magic_at : (mac bytes : Bytes) → length mac ≡ 6 → drop 208 (body mac bytes) ≡ magic ++ bytes
magic_at mac bytes h =
    drop_past 6 202 mac (zeros 10 ++ (zeros 192 ++ (magic ++ bytes))) h
    ∙ drop_past 10 192 (zeros 10) (zeros 192 ++ (magic ++ bytes)) (length-zeros 10)
    ∙ drop_past 192 0 (zeros 192) (magic ++ bytes) (length-zeros 192)

-- The addresses of a server, and its lease.
pub record Lease : Type 0 where
  pub tap : Address
  pub guest : Address
  pub mask : Address
  pub seconds : ℕ

abbrev pub server_of : Lease → DhcpServer
server_of l = record {
  tap_ip = dotted (bytes_of l.tap);
  guest_ip = dotted (bytes_of l.guest);
  netmask = dotted (bytes_of l.mask);
  lease_s = l.seconds;
}

abbrev pub AreAddresses : Lease → Type 0
AreAddresses l =
    AreBytes (bytes_of l.tap) × AreBytes (bytes_of l.guest) × AreBytes (bytes_of l.mask)

-- What a reply carries: the transaction and the hardware address of the request, the guest's
-- address, and as its options the kind, the server, the lease, the mask, the gateway and the resolver.
abbrev pub IsReply : Lease → DhcpRequest → ℕ → Bytes → Type 0
IsReply l request kind r =
    (300 ≤ length r)
    × (take 1 r ≡ 2 ∷ [])
    × (slice 4 4 r ≡ request.xid)
    × (slice 16 4 r ≡ bytes_of l.guest)
    × (slice 28 6 r ≡ request.mac)
    × (slice 236 4 r ≡ magic)
    × (parse_options (drop 240 r)
        ≡ (53, kind ∷ [])
          ∷ (54, bytes_of l.tap)
          ∷ (51, long l.seconds [])
          ∷ (1, bytes_of l.mask)
          ∷ (3, bytes_of l.tap)
          ∷ (6, bytes_of l.tap)
          ∷ [])

long-from_bytes : (xs : Bytes) → length xs ≡ 4 → AreBytes xs → long (from_bytes 0 xs) [] ≡ xs
long-from_bytes [] h are = ground (arith, h)
long-from_bytes (a ∷ []) h are = ground (arith, h)
long-from_bytes (a ∷ b ∷ []) h are = ground (arith, h)
long-from_bytes (a ∷ b ∷ c ∷ []) h are = ground (arith, h)
long-from_bytes (a ∷ b ∷ c ∷ d ∷ []) h are = ground (arith, are)
long-from_bytes (a ∷ b ∷ c ∷ d ∷ e ∷ xs) h are = ground (arith, h)

address_of : (x : Address) → AreBytes (bytes_of x) → rdata_of (dotted (bytes_of x)) ≡ bytes_of x
address_of x small = rdata_of-dotted x.a (x.b ∷ x.c ∷ x.d ∷ []) small

abbrev options_of : Lease → ℕ → List (ℕ × Bytes)
options_of l kind =
    (53, kind ∷ [])
    ∷ (54, bytes_of l.tap)
    ∷ (51, long l.seconds [])
    ∷ (1, bytes_of l.mask)
    ∷ (3, bytes_of l.tap)
    ∷ (6, bytes_of l.tap)
    ∷ []

reply_options-server_of :
    (l : Lease) (kind : ℕ) → AreAddresses l → reply_options (server_of l) kind ≡ options_of l kind
unfolding reply_options
reply_options-server_of l kind are = rw (address_of l.tap are.0, address_of l.mask are.2) refl

put_all-options_of : (l : Lease) (kind : ℕ) → put_all (options_of l kind) [] ≡ options_of l kind
unfolding put
put_all-options_of l kind = refl

options_of-AreOptions : (l : Lease) (kind : ℕ) → AreOptions (options_of l kind)
options_of-AreOptions l kind = ground arith

-- The fixed bytes of a reply, up to the hardware address.
abbrev front : Lease → DhcpRequest → Bytes → Bytes
front l request bytes =
    2
    ∷ 1
    ∷ 6
    ∷ 0
    ∷ long (from_bytes 0 request.xid) (
        word 0 (
          word (from_bytes 0 request.flags)
            (0 ∷ 0 ∷ 0 ∷ 0 ∷ (bytes_of l.guest ++ (bytes_of l.tap ++ 0 ∷ 0 ∷ 0 ∷ 0 ∷ bytes)))))

reply_head-front :
    (l : Lease) (request : DhcpRequest) (bytes : Bytes)
    → AreAddresses l
    → reply_head (server_of l) request bytes ≡ front l request (body request.mac bytes)
unfolding reply_head
reply_head-front l request bytes are = rw (address_of l.tap are.0, address_of l.guest are.1) refl

abbrev encoded : Lease → ℕ → Bytes
encoded l kind = encode_options (options_of l kind)

build_reply-front :
    (l : Lease) (request : DhcpRequest) (kind : ℕ)
    → AreAddresses l
    → (k : ℕ) × (build_reply (server_of l) request kind
        ≡ front l request (body request.mac (encoded l kind ++ zeros k)))
unfolding build_reply
build_reply-front l request kind are = (
  min_packet - length (front l request (body request.mac (encoded l kind))),
  ap (ljust min_packet) (
        ap (λ options. reply_head (server_of l) request (encode_options options))
          (reply_options-server_of l kind are)
        ∙ reply_head-front l request (encoded l kind) are)
      ∙ ap (front l request) (
          body-append request.mac (encoded l kind)
            (zeros (min_packet - length (front l request (body request.mac (encoded l kind)))))),
)

length-build_reply :
    (server : DhcpServer) (request : DhcpRequest) (kind : ℕ)
    → 300 ≤ length (build_reply server request kind)
unfolding build_reply
length-build_reply server request kind =
    let packet = reply_head server request (encode_options (reply_options server kind)) in
    omega (
      arith,
      length-append packet (zeros (min_packet - length packet)),
      length-zeros (min_packet - length packet),
    )

pub build_reply-IsReply :
    (l : Lease) (request : DhcpRequest) (kind : ℕ)
    → AreAddresses l
    → length request.xid ≡ 4
    → AreBytes request.xid
    → length request.mac ≡ 6
    → IsReply l request kind (build_reply (server_of l) request kind)
build_reply-IsReply l request kind are four small six =
    let (k, e) = build_reply-front l request kind are in
    let at_magic = magic_at request.mac (encoded l kind ++ zeros k) six in
    (
      length-build_reply (server_of l) request kind,
      ap (take 1) e,
      ap (slice 4 4) e ∙ long-from_bytes request.xid four small,
      ap (slice 16 4) e,
      ap (slice 28 6) e
          ∙ take-append 6 request.mac
              (zeros 10 ++ (zeros 192 ++ (magic ++ (encoded l kind ++ zeros k)))) six,
      ap (slice 236 4) e ∙ ap (take 4) at_magic,
      ap (λ r. parse_options (drop 240 r)) e
          ∙ ap parse_options
              (drop-add 208 4 (body request.mac (encoded l kind ++ zeros k)) ∙ ap (drop 4) at_magic)
          ∙ parse_options-encode_options (options_of l kind) (zeros k)
              (options_of-AreOptions l kind)
          ∙ put_all-options_of l kind,
    )
