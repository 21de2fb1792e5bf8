-- ===== src/Socks5/Tests.antt =====
-- A handshake with credentials whose last reply arrives with the first byte of the payload.
use Prim.Native.Nat.{ℕ}
use goatrouter.Common.{◌≡◌, refl, false, Option, some, List, [], ◌∷◌}
use goatrouter.Handshake.{
  arrives, Wire, gives, check_round, fill, take, drop, read_exactly, release_stream,
}
use goatrouter.Socks5.{
  Credentials, map_reply, accept_credentials, send_credentials, accept_method, negotiate,
  read_bound_address, check_reply, accept_head, connect, check_credentials, handshake,
  socks5_connect,
}
use goatrouter.Socks5.Exchange.{Exchanges, socks5_connect-Exchanges}

abbrev wire : Wire
wire = record {
  inbox = record { buffered = []; ended = false; failed = false };
  events =
      arrives (5 ∷ 2 ∷ [])
      ∷ arrives (1 ∷ 0 ∷ 5 ∷ [])
      ∷ arrives (0 ∷ 0 ∷ 1 ∷ 10 ∷ 0 ∷ 0 ∷ 1 ∷ 4 ∷ 56 ∷ 72 ∷ [])
      ∷ [];
  written = [];
}

abbrev credentials : Option Credentials
credentials = some (record { username = 117 ∷ []; password = 112 ∷ [] })

abbrev request_target : List ℕ
request_target = 1 ∷ 127 ∷ 0 ∷ 0 ∷ 1 ∷ 0 ∷ 80 ∷ []

abbrev after : Wire
after = (socks5_connect credentials request_target wire).1

succeeds :
    (socks5_connect credentials request_target wire ≡ (gives (10 ∷ 0 ∷ 0 ∷ 1 ∷ 4 ∷ 56 ∷ []), after))
    × (release_stream after ≡ 72 ∷ [])
unfolding socks5_connect handshake check_credentials negotiate accept_method send_credentials
    accept_credentials connect accept_head check_reply map_reply read_bound_address read_exactly
    fill check_round take drop
succeeds = (refl, refl)

socks5_connect-Exchanges_example : Exchanges credentials request_target wire after
socks5_connect-Exchanges_example =
    socks5_connect-Exchanges credentials request_target wire (10 ∷ 0 ∷ 0 ∷ 1 ∷ 4 ∷ 56 ∷ []) after
      succeeds.0
