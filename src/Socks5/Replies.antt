-- ===== src/Socks5/Replies.antt =====
-- packages/proxy/src/socks5.ts: the reply to the request, and the bound address in it.
use Prim.Native.Nat.{ℕ}
use goatrouter.Common.{
  ◌+◌, ◌≡◌, ap, true, none, List, [], ◌∷◌, ◌++◌, length, ◌==◌, inl, inr, Bool-cases, Option-cases,
}
use goatrouter.Handshake.{Wire, gives, write, read_exactly}
use goatrouter.Handshake.Reading.{read_exactly-IsRead, >>=-gives}
use goatrouter.Socks5.{
  accept_head, read_domain, map_reply, byte_0, byte_1, byte_3, connect_message, read_bound_address,
  check_reply, connect,
}
use goatrouter.Socks5.Took.{Took, IsRead-Took, Took-then}

-- The bound address by its type: 4 or 16 bytes, or as many as the byte in front of them says, and 2
-- for the port.
pub data BoundAddress : ℕ → List ℕ → Type 0 where
  ipv4_address : {atyp : ℕ} (b : List ℕ) → (atyp == 1) ≡ true → length b ≡ 6 → BoundAddress atyp b
  ipv6_address : {atyp : ℕ} (b : List ℕ) → (atyp == 4) ≡ true → length b ≡ 18 → BoundAddress atyp b
  domain_address :
      {atyp : ℕ} (size b : List ℕ)
      → (atyp == 3) ≡ true
      → length size ≡ 1
      → length b ≡ byte_0 size + 2
      → BoundAddress atyp (size ++ b)

read_bound_address-BoundAddress :
    (atyp : ℕ) (w : Wire) (b : List ℕ) (after : Wire)
    → read_bound_address atyp w ≡ (gives b, after)
    → (bytes : List ℕ) × BoundAddress atyp bytes × Took w bytes [] after
unfolding read_bound_address
read_bound_address-BoundAddress atyp w b after h = elim (Bool-cases (atyp == 1)) [
  | inl v4 ↦
      let r = read_exactly-IsRead 6 w b after (rw (read_bound_address, v4) at h) in
      (b, ipv4_address b v4 r.exact, IsRead-Took 6 w b after r)
  | inr not_v4 ↦ elim (Bool-cases (atyp == 4)) [
    | inl v6 ↦
        let r = read_exactly-IsRead 18 w b after (rw (read_bound_address, not_v4, v6) at h) in
        (b, ipv6_address b v6 r.exact, IsRead-Took 18 w b after r)
    | inr not_v6 ↦ elim (Bool-cases (atyp == 3)) [
      | inr unknown ↦ cc (ap (λ y. y.0) (rw (read_bound_address, not_v4, not_v6, unknown) at h))
      | inl domain ↦
          let (size, u, read, k) =
            >>=-gives (read_exactly 1) read_domain w
              (rw (read_bound_address, not_v4, not_v6, domain) at h) in
          let r = read_exactly-IsRead 1 w size u read in
          let q = read_exactly-IsRead (byte_0 size + 2) u b after k in
          (
            size ++ b,
            domain_address size b domain r.exact q.exact,
            Took-then w u after size b [] [] (IsRead-Took 1 w size u r)
                (IsRead-Took (byte_0 size + 2) u b after q),
          )
    ]
  ]
]

-- A reply that grants the connection.
pub record Grants (w : Wire) (target head bound : List ℕ) (after : Wire) : Type 0 where
  pub size : length head ≡ 4
  pub version : (byte_0 head == 5) ≡ true
  pub granted : map_reply (byte_1 head) ≡ none
  pub address : BoundAddress (byte_3 head) bound
  pub took : Took w (head ++ bound) (connect_message target ∷ []) after

accept_head-gives :
    (head : List ℕ) (u : Wire) (b : List ℕ) (after : Wire)
    → accept_head head u ≡ (gives b, after)
    → ((byte_0 head == 5) ≡ true)
      × (map_reply (byte_1 head) ≡ none)
      × (read_bound_address (byte_3 head) u ≡ (gives b, after))
unfolding accept_head check_reply
accept_head-gives head u b after h = elim (Bool-cases (byte_0 head == 5)) [
  | inr odd ↦ cc (ap (λ y. y.0) (rw (accept_head, odd) at h))
  | inl version ↦ elim (Option-cases (map_reply (byte_1 head))) [
    | inr (code, failure) ↦
        cc (ap (λ y. y.0) (rw (accept_head, version, check_reply, failure) at h))
    | inl granted ↦ (version, granted, rw (accept_head, version, check_reply, granted) at h)
  ]
]

pub connect-Grants :
    (target : List ℕ) (w : Wire) (b : List ℕ) (after : Wire)
    → connect target w ≡ (gives b, after)
    → (head : List ℕ) × (bound : List ℕ) × Grants w target head bound after
unfolding connect
connect-Grants target w b after h =
    let sent = (write (connect_message target) w).1 in
    let (head, u, read, k) = >>=-gives (read_exactly 4) accept_head sent h in
    let (version, granted, rest) = accept_head-gives head u b after k in
    let r = read_exactly-IsRead 4 sent head u read in
    let (bound, address, took) = read_bound_address-BoundAddress (byte_3 head) u b after rest in
    let first : Took w head (connect_message target ∷ []) u = record {
      stream = r.stream;
      sent = r.written;
    } in
    (
      head,
      bound,
      record {
        size = r.exact;
        version = version;
        granted = granted;
        address = address;
        took = Took-then w u after head bound (connect_message target ∷ []) [] first took;
      },
    )
