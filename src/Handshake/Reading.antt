-- ===== src/Handshake/Reading.antt =====
-- packages/proxy/src/handshake-reader.ts: what a read takes from the stream.
use Prim.Native.Nat.{ℕ, zero, suc}
use Prim.Native.String.{String}
use mathlib.Core.List.{append_assoc}
use goatrouter.Common.{
  ◌≤◌, ◌⊎◌, ◌≡◌, refl, subst, sym, ap, ◌∙◌, Bool, true, false, none, List, [], ◌∷◌, ◌++◌, length,
  leb, arith, inl, inr, Bool-cases, Option-cases,
}
use goatrouter.Handshake.{
  ProxyError, SocketEvent, arrives, closes, breaks, Inbox, receive, Round, enough, waits, stops,
  check_round, Filled, fill, take, drop, ensure, ◌>>◌, ProxyErrorCode, Wire, Done, throws, gives,
  ◌>>=◌, read_exactly, to_come, release_stream,
}

gives_inj : {A : Type 0} {a b : A} → gives a ≡ gives b → a ≡ b
gives_inj h = cc h

Done-cases :
    {A : Type 0} (d : Done A) → ((e : ProxyError) × (d ≡ throws e)) ⊎ ((a : A) × (d ≡ gives a))
Done-cases (throws e) = inl (e, refl)
Done-cases (gives a) = inr (a, refl)

-- The wire after a read.
abbrev wire_after : ℕ → Filled → Wire → Wire
wire_after count f w = record {
  inbox = record {
    buffered = drop count f.inbox.buffered;
    ended = f.inbox.ended;
    failed = f.inbox.failed;
  };
  events = f.events;
  written = w.written;
}

take-drop : (n : ℕ) (s : List ℕ) → take n s ++ drop n s ≡ s
unfolding take drop
take-drop zero s = refl
take-drop (suc n) [] = refl
take-drop (suc n) (c ∷ s) = ap (λ l. c ∷ l) (take-drop n s)

length-take : (n : ℕ) (s : List ℕ) → n ≤ length s → length (take n s) ≡ n
unfolding take
length-take zero s h = refl
length-take (suc n) [] h = absurd (omega arith)
length-take (suc n) (c ∷ s) h = omega (arith, length-take n s (omega arith))

-- The loop loses no byte, and where it does not throw there are enough.
pub record IsFilled (count : ℕ) (i : Inbox) (events : List SocketEvent) (f : Filled) : Type 0 where
  pub whole : f.inbox.buffered ++ to_come f.events ≡ i.buffered ++ to_come events
  pub full : f.error ≡ none → count ≤ length f.inbox.buffered

receive-whole :
    (i : Inbox) (event : SocketEvent) (events : List SocketEvent)
    → (receive i event).buffered ++ to_come events ≡ i.buffered ++ to_come (event ∷ events)
receive-whole i (arrives chunk) events = append_assoc i.buffered chunk (to_come events)
receive-whole i closes events = refl
receive-whole i breaks events = refl

check_round-enough :
    (count : ℕ) (i : Inbox) → check_round count i ≡ enough → count ≤ length i.buffered
unfolding check_round
check_round-enough count i h = elim (Bool-cases (leb count (length i.buffered))) [
  | inl there ↦ ground arith
  | inr short ↦ elim (Bool-cases i.failed) [
    | inl failed ↦ cc (rw (check_round, short, failed) at h)
    | inr sound ↦ elim (Bool-cases i.ended) [
      | inl ended ↦ cc (rw (check_round, short, sound, ended) at h)
      | inr open' ↦ cc (rw (check_round, short, sound, open') at h)
    ]
  ]
]

Round-cases : (r : Round) → (r ≡ enough) ⊎ ((r ≡ waits) ⊎ ((e : ProxyError) × (r ≡ stops e)))
Round-cases enough = inl refl
Round-cases waits = inr (inl refl)
Round-cases (stops e) = inr (inr (e, refl))

pub fill-IsFilled :
    (count : ℕ) (i : Inbox) (events : List SocketEvent)
    → IsFilled count i events (fill count i events)
unfolding fill
fill-IsFilled count i [] = elim (Round-cases (check_round count i)) [
  | inl there ↦
      rw (fill, there) (record { whole = refl; full = λ _. check_round-enough count i there })
  | inr (inl more) ↦ rw (fill, more) (record { whole = refl; full = λ h. cc h })
  | inr (inr (e, stopped)) ↦ rw (fill, stopped) (record { whole = refl; full = λ h. cc h })
]
fill-IsFilled count i (event ∷ events) = elim (Round-cases (check_round count i)) [
  | inl there ↦
      rw (fill, there) (record { whole = refl; full = λ _. check_round-enough count i there })
  | inr (inl more) ↦
      let rest = fill-IsFilled count (receive i event) events in
      rw (fill, more)
        (record { whole = rest.whole ∙ receive-whole i event events; full = rest.full })
  | inr (inr (e, stopped)) ↦ rw (fill, stopped) (record { whole = refl; full = λ h. cc h })
]

-- A read that does not throw takes exactly its count of bytes off the front of the stream.
pub record IsRead (count : ℕ) (w : Wire) (bytes : List ℕ) (after : Wire) : Type 0 where
  pub stream : release_stream w ≡ bytes ++ release_stream after
  pub exact : length bytes ≡ count
  pub written : after.written ≡ w.written

pub read_exactly-IsRead :
    (count : ℕ) (w : Wire) (bytes : List ℕ) (after : Wire)
    → read_exactly count w ≡ (gives bytes, after)
    → IsRead count w bytes after
unfolding read_exactly
read_exactly-IsRead count w bytes after h =
    let f = fill count w.inbox w.events in
    let ok = fill-IsFilled count w.inbox w.events in
    elim (Option-cases f.error) [
      | inr (e, thrown) ↦ cc (rw (read_exactly, thrown) at h)
      | inl fine ↦
          let e = rw (read_exactly, fine) at h in
          let same_bytes : take count f.inbox.buffered ≡ bytes = gives_inj (ap (λ x. x.0) e) in
          let same_after : wire_after count f w ≡ after = ap (λ x. x.1) e in
          let front = take count f.inbox.buffered in
          let back = drop count f.inbox.buffered in
          subst (λ b. IsRead count w b after) same_bytes
            (subst (λ u. IsRead count w front u) same_after
              (record {
                stream =
                    sym ok.whole
                    ∙ ap (λ l. l ++ to_come f.events) (sym (take-drop count f.inbox.buffered))
                    ∙ append_assoc front back (to_come f.events);
                exact = length-take count f.inbox.buffered (ok.full fine);
                written = refl;
              }))
    ]

-- A chain that gives a value went through its first statement.
pub >>=-gives :
    {A B : Type 0} (first : Wire → Done A × Wire) (next : A → Wire → Done B × Wire) (w : Wire)
    {b : B} {after : Wire}
    → (first >>= next) w ≡ (gives b, after)
    → (a : A) × (u : Wire) × (first w ≡ (gives a, u)) × (next a u ≡ (gives b, after))
>>=-gives first next w h = elim (Done-cases (first w).0) [
  | inl (e, thrown) ↦ cc (rw (thrown, ◌>>=◌) at h)
  | inr (a, given) ↦ (a, (first w).1, ap (λ x. (x, (first w).1)) given, rw (given, ◌>>=◌) at h)
]

pub ensure-gives :
    {B : Type 0} (test : Bool) (code : ProxyErrorCode) (stage : String)
    (next : Wire → Done B × Wire) (w : Wire) {b : B} {after : Wire}
    → (ensure test code stage >> next) w ≡ (gives b, after)
    → (test ≡ true) × (next w ≡ (gives b, after))
ensure-gives true code stage next w h = (refl, h)
ensure-gives false code stage next w h = cc (ap (λ x. x.0) h)
