-- ===== src/Handshake/Tests.antt =====
-- A reply that arrives in two chunks, and the theorem on a read there.
use goatrouter.Common.{◌≡◌, refl, false, [], ◌∷◌, arith}
use goatrouter.Handshake.{arrives, Wire, gives, take, read_exactly, release_stream}
use goatrouter.Handshake.Arrivals.{read_exactly-take}

abbrev wire : Wire
wire = record {
  inbox = record { buffered = []; ended = false; failed = false };
  events = arrives (5 ∷ []) ∷ arrives (0 ∷ 7 ∷ 8 ∷ []) ∷ [];
  written = [];
}

read_exactly-take_example : (read_exactly 2 wire).0 ≡ gives (take 2 (release_stream wire))
read_exactly-take_example = read_exactly-take 2 wire refl refl refl (omega arith)
