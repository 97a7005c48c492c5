-- ===== src/Net/Dhcp/Offers.antt =====
-- What a client reads of the server's replies (src/msks/msks/net/dhcp.py).
use msks.Prelude.{ℕ, ◌&&◌, Option, none, some, [], ◌∷◌, ◌≡◌, if◌then◌else◌}
use msks.Prelude.Dict.{get}
use msks.Net.Bytes.{Bytes}
use msks.Net.Dhcp.{nat_key, DhcpRequest, is_opt, request_for_us}
use msks.Net.Dhcp.Layout.{Lease, server_of, IsReply}

-- The kind of reply to a request: an offer to a discover, an acknowledgement to a request for this server.
abbrev pub kind_of : Lease → DhcpRequest → Option ℕ
kind_of l request =
    if is_opt (get 53 request.options) (1 ∷ [])
    then some 2
    else if is_opt (get 53 request.options) (3 ∷ []) && request_for_us (server_of l) request
    then some 5
    else none

abbrev pub Answers : Lease → DhcpRequest → Option ℕ → Option Bytes → Type 0
Answers l request none reply = reply ≡ none
Answers l request (some kind) reply = (r : Bytes) × (reply ≡ some r) × IsReply l request kind r
