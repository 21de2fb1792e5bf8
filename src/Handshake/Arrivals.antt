-- ===== src/Handshake/Arrivals.antt =====
-- packages/proxy/src/handshake-reader.ts: a read does not depend on how the data arrives.
use Prim.Native.Nat.{ℕ, zero, suc}
use mathlib.Core.List.{append_assoc, append-nil}
use goatrouter.Common.{
  ◌≤◌, ◌≡◌, refl, ap, ◌∙◌, Bool, true, false, none, List, [], ◌∷◌, ◌++◌, length, leb, arith, inl,
  inr, Bool-cases,
}
use goatrouter.Handshake.{
  SocketEvent, arrives, closes, breaks, Inbox, receive, check_round, fill, take, Wire, gives,
  read_exactly, to_come, release_stream,
}
use goatrouter.Handshake.Reading.{fill-IsFilled}

-- A socket that delivers data alone.
abbrev pub all_arrive : List SocketEvent → Bool
all_arrive [] = true
all_arrive (arrives chunk ∷ events) = all_arrive events
all_arrive (closes ∷ events) = false
all_arrive (breaks ∷ events) = false

take-append : (n : ℕ) (s t : List ℕ) → n ≤ length s → take n s ≡ take n (s ++ t)
unfolding take
take-append zero s t h = refl
take-append (suc n) [] t h = absurd (omega arith)
take-append (suc n) (c ∷ s) t h = ap (λ l. c ∷ l) (take-append n s t (omega arith))

fill_arriving :
    (count : ℕ) (i : Inbox) (events : List SocketEvent)
    → i.ended ≡ false
    → i.failed ≡ false
    → all_arrive events ≡ true
    → count ≤ length (i.buffered ++ to_come events)
    → (fill count i events).error ≡ none
unfolding fill check_round
fill_arriving count i [] e f a h = elim (Bool-cases (leb count (length i.buffered))) [
  | inl there ↦ rw (fill, check_round, there) refl
  | inr short ↦ absurd (ground (arith, rw (append-nil i.buffered) at h))
]
fill_arriving count i (arrives chunk ∷ events) e f a h =
    elim (Bool-cases (leb count (length i.buffered))) [
      | inl there ↦ rw (fill, check_round, there) refl
      | inr short ↦
          rw (fill, check_round, short, f, e)
            (fill_arriving count (receive i (arrives chunk)) events e f a
              (rw (append_assoc i.buffered chunk (to_come events)) h))
    ]
fill_arriving count i (closes ∷ events) e f a h = cc a
fill_arriving count i (breaks ∷ events) e f a h = cc a

-- A read of a socket that delivers at least its count of bytes, in whatever chunks, and neither
-- closes nor fails gives the first bytes of the stream: it does not depend on how they are cut.
pub read_exactly-take :
    (count : ℕ) (w : Wire)
    → w.inbox.ended ≡ false
    → w.inbox.failed ≡ false
    → all_arrive w.events ≡ true
    → count ≤ length (release_stream w)
    → (read_exactly count w).0 ≡ gives (take count (release_stream w))
unfolding read_exactly
read_exactly-take count w e f a h =
    let full = fill_arriving count w.inbox w.events e f a h in
    let r = fill count w.inbox w.events in
    let ok = fill-IsFilled count w.inbox w.events in
    rw (read_exactly, full)
      (ap gives (
        take-append count r.inbox.buffered (to_come r.events) (ok.full full)
        ∙ ap (take count) ok.whole))
