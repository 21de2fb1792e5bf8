-- ===== src/Socks5/Took.antt =====
-- packages/proxy/src/socks5.ts: the bytes that a statement reads and the messages that it writes.
use Prim.Native.Nat.{ℕ}
use mathlib.Core.List.{append_assoc, append-nil}
use goatrouter.Common.{◌≡◌, sym, ap, ◌∙◌, List, [], ◌++◌}
use goatrouter.Handshake.{Wire, release_stream}
use goatrouter.Handshake.Reading.{IsRead}

-- An action that took these bytes off the front of the stream and sent these messages.
pub record Took (w : Wire) (bytes : List ℕ) (messages : List (List ℕ)) (after : Wire) : Type 0 where
  pub stream : release_stream w ≡ bytes ++ release_stream after
  pub sent : after.written ≡ w.written ++ messages

pub IsRead-Took :
    (count : ℕ) (w : Wire) (bytes : List ℕ) (after : Wire)
    → IsRead count w bytes after
    → Took w bytes [] after
IsRead-Took count w bytes after r = record {
  stream = r.stream;
  sent = r.written ∙ sym (append-nil w.written);
}

pub Took-then :
    (w u after : Wire) (a b : List ℕ) (m n : List (List ℕ))
    → Took w a m u
    → Took u b n after
    → Took w (a ++ b) (m ++ n) after
Took-then w u after a b m n first second = record {
  stream =
      first.stream ∙ ap (λ l. a ++ l) second.stream ∙ sym (append_assoc a b (release_stream after));
  sent = second.sent ∙ ap (λ l. l ++ n) first.sent ∙ append_assoc w.written m n;
}
