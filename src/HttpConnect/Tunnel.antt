-- ===== src/HttpConnect/Tunnel.antt =====
-- packages/proxy/src/http-connect.ts: what a tunnel that is granted has read.
use Prim.Native.Nat.{ℕ, zero, suc}
use mathlib.Core.List.{append_assoc, append-nil}
use goatrouter.Common.{
  ◌+◌, ◌≤◌, ◌≡◌, refl, ap, subst, ◌∙◌, true, false, Option, none, some, List, [], ◌∷◌, ◌++◌, Text,
  length, length-append, arith, inl, inr, Bool-cases, Option-cases,
}
use goatrouter.Handshake.{Wire, gives, write, read_exactly}
use goatrouter.Handshake.Reading.{read_exactly-IsRead, >>=-gives}
use goatrouter.Socks5.Took.{Took, IsRead-Took, Took-then}
use goatrouter.HttpConnect.{
  max_header_bytes, map_status, request_message, ends_block, finish_header, grow_header,
  read_header, status_line, match_status, accept_status, http_connect,
}

gives_inj : {A : Type 0} {a b : A} → gives a ≡ gives b → a ≡ b
gives_inj h = cc h

-- No start of a block is the end of a header.
pub data Unended : List ℕ → Type 0 where
  empty : Unended []
  longer :
      {block : List ℕ} (next : List ℕ)
      → Unended block
      → length next ≡ 1
      → ends_block (block ++ next) ≡ false
      → Unended (block ++ next)

-- A header that was read: one byte makes it end, and none before.
pub record IsHeader (header : List ℕ) : Type 0 where
  pub before : List ℕ
  pub last : List ℕ
  pub unended : Unended before
  pub one : length last ≡ 1
  pub all_of : header ≡ before ++ last
  pub ends : ends_block header ≡ true

record Reads (block : List ℕ) (room : ℕ) (w : Wire) (header : List ℕ) (after : Wire) : Type 0 where
  is_header : IsHeader header
  bounded : length header ≤ length block + room + 1
  taken : List ℕ
  whole : header ≡ block ++ taken
  took : Took w taken [] after

-- The byte that ends the header.
ending :
    (block next : List ℕ) (room : ℕ) (w u : Wire)
    → Unended block
    → length next ≡ 1
    → ends_block (block ++ next) ≡ true
    → Took w next [] u
    → Reads block room w (block ++ next) u
ending block next room w u v one ends took = record {
  is_header = record {
    before = block;
    last = next;
    unended = v;
    one = one;
    all_of = refl;
    ends = ends;
  };
  bounded = omega (arith, length-append block next, one);
  taken = next;
  whole = refl;
  took = took;
}

read_header-Reads :
    (room : ℕ) (block : List ℕ) (w : Wire) (header : List ℕ) (after : Wire)
    → Unended block
    → read_header room block w ≡ (gives header, after)
    → Reads block room w header after
unfolding read_header
read_header-Reads zero block w header after v h =
    let (next, u, read, k) =
      >>=-gives (read_exactly 1) (λ next. finish_header (block ++ next)) w h in
    let r = read_exactly-IsRead 1 w next u read in
    elim (Bool-cases (ends_block (block ++ next))) [
      | inr no_end ↦ cc (ap (λ y. y.0) (rw no_end at k))
      | inl ends ↦
          let e = rw ends at k in
          let same : block ++ next ≡ header = gives_inj (ap (λ y. y.0) e) in
          let same_wire : u ≡ after = ap (λ y. y.1) e in
          rw (← same, ← same_wire)
            (ending block next zero w u v r.exact ends (IsRead-Took 1 w next u r))
    ]
read_header-Reads (suc room) block w header after v h =
    let (next, u, read, k) =
      >>=-gives (read_exactly 1)
        (λ next. grow_header (block ++ next) (λ x. read_header room (block ++ next) x)) w h in
    let r = read_exactly-IsRead 1 w next u read in
    let took = IsRead-Took 1 w next u r in
    elim (Bool-cases (ends_block (block ++ next))) [
      | inl ends ↦
          let e = rw ends at k in
          let same : block ++ next ≡ header = gives_inj (ap (λ y. y.0) e) in
          let same_wire : u ≡ after = ap (λ y. y.1) e in
          rw (← same, ← same_wire) (ending block next (suc room) w u v r.exact ends took)
      | inr no_end ↦
          let more =
            read_header-Reads room (block ++ next) u header after (longer next v r.exact no_end)
              (rw no_end at k) in
          record {
            is_header = more.is_header;
            bounded = omega (arith, more.bounded, length-append block next, r.exact);
            taken = next ++ more.taken;
            whole = more.whole ∙ append_assoc block next more.taken;
            took = Took-then w u after next more.taken [] [] took more.took;
          }
    ]

-- A tunnel that is granted.
pub record Tunnels (authority : Text) (authorization : Option Text) (w after : Wire) : Type 0 where
  pub header : List ℕ
  pub status : ℕ
  pub is_header : IsHeader header
  pub bounded : length header ≤ max_header_bytes + 1
  pub matched : match_status (status_line header) ≡ some status
  pub granted : map_status status ≡ none
  pub took : Took w header (request_message authority authorization ∷ []) after

-- A tunnel that is granted has taken off the stream exactly one header, which is of at most 16 KiB and
-- a byte and which its last byte ends for the first time, so that the socket stands at the first byte
-- after it; the status of the header is one that grants the tunnel. What was written is the request.
pub http_connect-Tunnels :
    (authority : Text) (authorization : Option Text) (w : Wire) (x : Unit {0}) (after : Wire)
    → http_connect authority authorization w ≡ (gives x, after)
    → Tunnels authority authorization w after
unfolding http_connect accept_status
http_connect-Tunnels authority authorization w x after h =
    let message = request_message authority authorization in
    let sent = (write message w).1 in
    let (header, u, read, k) = >>=-gives (read_header max_header_bytes []) accept_status sent h in
    let r = read_header-Reads max_header_bytes [] sent header u empty read in
    elim (Option-cases (match_status (status_line header))) [
      | inl odd ↦ cc (ap (λ y. y.0) (rw (accept_status, odd) at k))
      | inr (status, matched) ↦ elim (Option-cases (map_status status)) [
        | inr (code, failure) ↦ cc (ap (λ y. y.0) (rw (accept_status, matched, failure) at k))
        | inl granted ↦
            let same : u ≡ after = ap (λ y. y.1) (rw (accept_status, matched, granted) at k) in
            subst (Tunnels authority authorization w) same (record {
              header = header;
              status = status;
              is_header = r.is_header;
              bounded = omega (arith, r.bounded);
              matched = matched;
              granted = granted;
              took = record {
                stream = rw r.whole r.took.stream;
                sent = r.took.sent ∙ append-nil sent.written;
              };
            })
      ]
    ]
