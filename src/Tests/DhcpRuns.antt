-- ===== src/Tests/DhcpRuns.antt =====
-- Runs of src/msks/msks/net/dhcp.py on concrete datagrams.
use msks.Prelude.{ℕ, List, [], ◌∷◌, ◌++◌, ◌≡◌, refl, arith}
use msks.Prelude.Dict.{put}
use msks.Net.Bytes.{Bytes}
use msks.Net.Dhcp.{DhcpRequest, parse_options, encode_options, zeros, magic}
use msks.Net.Dhcp.Options.{put_all, parse_options-encode_options}
use msks.Net.Dhcp.Layout.{Lease}

abbrev pairs : List (ℕ × Bytes)
pairs = (53, 1 ∷ []) ∷ (55, 1 ∷ 3 ∷ 6 ∷ []) ∷ []

parse_options-encode_options_example :
    parse_options (encode_options pairs ++ 0 ∷ []) ≡ put_all pairs []
parse_options-encode_options_example =
    parse_options-encode_options pairs (0 ∷ [])
      (omega arith, omega arith, omega arith, (omega arith, omega arith, omega arith, tt))

-- A pad byte is passed, and a value past the end is not recorded.
truncated : parse_options (0 ∷ 53 ∷ 1 ∷ 3 ∷ 50 ∷ 4 ∷ 10 ∷ []) ≡ (53, 3 ∷ []) ∷ []
unfolding parse_options put
truncated = refl

abbrev lease : Lease
lease = record {
  tap = record { a = 10; b = 0; c = 0; d = 1 };
  guest = record { a = 10; b = 0; c = 0; d = 2 };
  mask = record { a = 255; b = 255; c = 255; d = 252 };
  seconds = 3600;
}

-- a discover of the transaction 1.2.3.4
abbrev discover : Bytes
discover =
    1
    ∷ 1
    ∷ 6
    ∷ 0
    ∷ 1
    ∷ 2
    ∷ 3
    ∷ 4
    ∷ 0
    ∷ 0
    ∷ 128
    ∷ 0
    ∷ (zeros 16 ++ (2 ∷ 0 ∷ 0 ∷ 0 ∷ 0 ∷ 7 ∷ (zeros 202 ++ (magic ++ encode_options pairs))))

abbrev request : DhcpRequest
request = record {
  xid = 1 ∷ 2 ∷ 3 ∷ 4 ∷ [];
  mac = 2 ∷ 0 ∷ 0 ∷ 0 ∷ 0 ∷ 7 ∷ [];
  flags = 128 ∷ 0 ∷ [];
  options = pairs;
}
