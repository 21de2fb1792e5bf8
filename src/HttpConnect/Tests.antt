-- ===== src/HttpConnect/Tests.antt =====
-- A tunnel that is granted, with the first byte of its payload in the same chunk.
use goatrouter.Common.{◌≡◌, refl, false, none, [], ◌∷◌, ◌++◌, Text, codes}
use goatrouter.Model.{starts_with}
use goatrouter.Handshake.{
  arrives, Wire, gives, check_round, fill, take, drop, read_exactly, release_stream,
}
use goatrouter.HttpConnect.{
  map_status, ends_block, read_header, status_line, read_status, match_status, accept_status,
  http_connect,
}
use goatrouter.HttpConnect.Tunnel.{Tunnels, http_connect-Tunnels}

abbrev wire : Wire
wire = record {
  inbox = record { buffered = []; ended = false; failed = false };
  events =
      arrives (codes "HTTP/1.1 2")
      ∷ arrives (codes "00 OK" ++ (13 ∷ 10 ∷ 13 ∷ 10 ∷ []) ++ codes "x")
      ∷ [];
  written = [];
}

abbrev authority : Text
authority = codes "example.com:443"

abbrev after : Wire
after = (http_connect authority none wire).1

grants : (http_connect authority none wire ≡ (gives tt, after)) × (release_stream after ≡ codes "x")
unfolding http_connect accept_status match_status read_status status_line read_header ends_block
    map_status starts_with read_exactly fill check_round take drop
grants = (refl, refl)

http_connect-Tunnels_example : Tunnels authority none wire after
http_connect-Tunnels_example = http_connect-Tunnels authority none wire tt after grants.0
