-- ===== src/Socks5/Methods.antt =====
-- packages/proxy/src/socks5.ts: the negotiation of a method, and the credentials.
use Prim.Native.Nat.{ℕ}
use mathlib.Core.List.{append-nil}
use goatrouter.Common.{
  ◌≡◌, refl, sym, ap, subst, true, false, Option, none, some, List, [], ◌∷◌, ◌++◌, any, length,
  ◌==◌, arith, inl, inr, Bool-cases,
}
use goatrouter.Handshake.{Wire, gives, write, read_exactly}
use goatrouter.Handshake.Reading.{read_exactly-IsRead, >>=-gives}
use goatrouter.Socks5.{
  accept_credentials, accept_method, Credentials, byte_0, byte_1, offered_methods, greeting_message,
  credentials_message, send_credentials, negotiate,
}
use goatrouter.Socks5.Took.{Took, Took-then}

accept_credentials-gives :
    (reply : List ℕ) (u after : Wire) (x : Unit {0})
    → accept_credentials reply u ≡ (gives x, after)
    → ((byte_0 reply == 1) ≡ true) × ((byte_1 reply == 0) ≡ true) × (u ≡ after)
unfolding accept_credentials
accept_credentials-gives reply u after x h = elim (Bool-cases (byte_0 reply == 1)) [
  | inr odd ↦ cc (ap (λ y. y.0) (rw (accept_credentials, odd) at h))
  | inl version ↦ elim (Bool-cases (byte_1 reply == 0)) [
    | inr denied ↦ cc (ap (λ y. y.0) (rw (accept_credentials, version, denied) at h))
    | inl status ↦ (version, status, ap (λ y. y.1) (rw (accept_credentials, version, status) at h))
  ]
]

-- A reply to the credentials that accepts them.
pub record Accepts (c : Credentials) (w after : Wire) (reply : List ℕ) : Type 0 where
  pub size : length reply ≡ 2
  pub version : (byte_0 reply == 1) ≡ true
  pub status : (byte_1 reply == 0) ≡ true
  pub took : Took w reply (credentials_message c ∷ []) after

send_credentials-Accepts :
    (credentials : Option Credentials) (w after : Wire) (x : Unit {0})
    → send_credentials credentials w ≡ (gives x, after)
    → (c : Credentials) × (credentials ≡ some c) × (reply : List ℕ) × Accepts c w after reply
unfolding send_credentials
send_credentials-Accepts none w after x h = cc (ap (λ y. y.0) h)
send_credentials-Accepts (some c) w after x h =
    let sent = (write (credentials_message c) w).1 in
    let (reply, u, read, k) = >>=-gives (read_exactly 2) accept_credentials sent h in
    let (version, status, same) = accept_credentials-gives reply u after x k in
    let r = read_exactly-IsRead 2 sent reply u read in
    (
      c,
      refl,
      reply,
      record {
        size = r.exact;
        version = version;
        status = status;
        took =
            subst (λ v. Took w reply (credentials_message c ∷ []) v) same
              (record { stream = r.stream; sent = r.written });
      },
    )

-- What a method that is accepted leads to: nothing, or the exchange of credentials that are there.
pub data Methods (credentials : Option Credentials) (u after : Wire) (greeting : List ℕ)
    : List ℕ → List (List ℕ) → Type 0 where
  no_authentication :
      (byte_1 greeting == 0) ≡ true → u ≡ after → Methods credentials u after greeting [] []
  user_and_password :
      (c : Credentials) (reply : List ℕ)
      → (byte_1 greeting == 2) ≡ true
      → credentials ≡ some c
      → Accepts c u after reply
      → Methods credentials u after greeting reply (credentials_message c ∷ [])

-- A method that was offered, and is not that of credentials, is the one with none.
offered_methods-none :
    (credentials : Option Credentials) (method : ℕ)
    → any (λ m. m == method) (offered_methods credentials) ≡ true
    → (method == 2) ≡ false
    → (method == 0) ≡ true
offered_methods-none none method h k = ground arith
offered_methods-none (some c) method h k = ground arith

accept_method-Methods :
    (credentials : Option Credentials) (greeting : List ℕ) (u after : Wire) (x : Unit {0})
    → accept_method credentials greeting u ≡ (gives x, after)
    → ((byte_0 greeting == 5) ≡ true)
      × (reply : List ℕ) × (messages : List (List ℕ)) × Methods credentials u after greeting reply
          messages
unfolding accept_method
accept_method-Methods credentials greeting u after x h =
    let method = byte_1 greeting in
    elim (Bool-cases (byte_0 greeting == 5)) [
      | inr odd ↦ cc (ap (λ y. y.0) (rw (accept_method, odd) at h))
      | inl version ↦ elim (Bool-cases (method == 0xff)) [
        | inl unacceptable ↦ cc (ap (λ y. y.0) (rw (accept_method, version, unacceptable) at h))
        | inr acceptable ↦
            elim (Bool-cases (any (λ m. m == method) (offered_methods credentials))) [
              | inr foreign ↦
                  cc (ap (λ y. y.0) (rw (accept_method, version, acceptable, foreign) at h))
              | inl offered ↦ elim (Bool-cases (method == 2)) [
                | inl by_password ↦
                    let (c, given, reply, accepts) =
                      send_credentials-Accepts credentials u after x
                        (rw (accept_method, version, acceptable, offered, by_password) at h) in
                    (version, reply, _, user_and_password c reply by_password given accepts)
                | inr other ↦
                    let e = rw (accept_method, version, acceptable, offered, other) at h in
                    (
                      version,
                      [],
                      [],
                      no_authentication (offered_methods-none credentials method offered other)
                          (ap (λ y. y.1) e),
                    )
              ]
            ]
      ]
    ]

-- A negotiation that is accepted.
pub record Negotiates (credentials : Option Credentials) (w : Wire) (bytes : List ℕ)
    (messages : List (List ℕ)) (after : Wire) : Type 0 where
  pub greeting : List ℕ
  pub reply : List ℕ
  pub replied : Wire
  pub size : length greeting ≡ 2
  pub version : (byte_0 greeting == 5) ≡ true
  pub methods : Methods credentials replied after greeting reply messages
  pub bytes_are : bytes ≡ greeting ++ reply
  pub took : Took w bytes (greeting_message credentials ∷ messages) after

Methods-Took :
    (credentials : Option Credentials) (u after : Wire) (greeting reply : List ℕ)
    (messages : List (List ℕ))
    → Methods credentials u after greeting reply messages
    → Took u reply messages after
Methods-Took credentials u after greeting reply messages (no_authentication m same) =
    subst (λ v. Took u [] [] v) same (record { stream = refl; sent = sym (append-nil u.written) })
Methods-Took credentials u after greeting reply messages (user_and_password c r m given accepts) =
    accepts.took

pub negotiate-Negotiates :
    (credentials : Option Credentials) (w : Wire) (x : Unit {0}) (after : Wire)
    → negotiate credentials w ≡ (gives x, after)
    → (bytes : List ℕ) × (messages : List (List ℕ)) × Negotiates credentials w bytes messages after
unfolding negotiate
negotiate-Negotiates credentials w x after h =
    let sent = (write (greeting_message credentials) w).1 in
    let (greeting, u, read, k) = >>=-gives (read_exactly 2) (accept_method credentials) sent h in
    let (version, reply, messages, methods) =
      accept_method-Methods credentials greeting u after x k in
    let r = read_exactly-IsRead 2 sent greeting u read in
    let first : Took w greeting (greeting_message credentials ∷ []) u = record {
      stream = r.stream;
      sent = r.written;
    } in
    (
      greeting ++ reply,
      messages,
      record {
        greeting = greeting;
        reply = reply;
        replied = u;
        size = r.exact;
        version = version;
        methods = methods;
        bytes_are = refl;
        took =
            Took-then w u after greeting reply (greeting_message credentials ∷ []) messages first
              (Methods-Took credentials u after greeting reply messages methods);
      },
    )
