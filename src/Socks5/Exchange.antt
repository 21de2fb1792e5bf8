-- ===== src/Socks5/Exchange.antt =====
-- packages/proxy/src/socks5.ts: what a handshake that succeeds has read and written.
use Prim.Native.Nat.{ℕ}
use goatrouter.Common.{
  ◌≡◌, ap, ◌||◌, Option, none, some, List, [], ◌∷◌, ◌++◌, length, ltb, ◌==◌, inl, inr, Bool-cases,
}
use goatrouter.Handshake.{Wire, gives}
use goatrouter.Handshake.Reading.{>>=-gives}
use goatrouter.Socks5.{
  Credentials, greeting_message, connect_message, negotiate, connect, check_credentials, handshake,
  socks5_connect,
}
use goatrouter.Socks5.Methods.{Negotiates, negotiate-Negotiates}
use goatrouter.Socks5.Replies.{Grants, connect-Grants}
use goatrouter.Socks5.Took.{Took, Took-then}

-- A handshake that succeeds.
pub record Exchanges (credentials : Option Credentials) (target : List ℕ) (w after : Wire)
    : Type 0 where
  pub negotiated : List ℕ
  pub messages : List (List ℕ)
  pub between : Wire
  pub head : List ℕ
  pub bound : List ℕ
  pub method : Negotiates credentials w negotiated messages between
  pub reply : Grants between target head bound after
  pub took :
      Took w
        (negotiated ++ (head ++ bound))
        ((greeting_message credentials ∷ messages) ++ (connect_message target ∷ []))
        after

check_credentials-wire :
    (credentials : Option Credentials) (w : Wire) (x : Unit {0}) (u : Wire)
    → check_credentials credentials w ≡ (gives x, u)
    → w ≡ u
unfolding check_credentials
check_credentials-wire none w x u h = ap (λ y. y.1) h
check_credentials-wire (some c) w x u h = elim (Bool-cases (length c.password == 0)) [
  | inl missing ↦ cc (ap (λ y. y.0) (rw (check_credentials, missing) at h))
  | inr there ↦
      elim (Bool-cases
        (ltb 255 (length c.username) || ltb 255 (length c.password) || length c.username == 0)) [
          | inl long ↦ cc (ap (λ y. y.0) (rw (check_credentials, there, long) at h))
          | inr fits ↦ ap (λ y. y.1) (rw (check_credentials, there, fits) at h)
        ]
]

-- A handshake that succeeds has taken exactly the replies of the proxy off the front of the stream,
-- so that the socket that it returns stands at the first byte after them: a greeting of version 5
-- with a method that was offered, for the method of credentials a reply that accepts them, and a
-- reply of version 5 that grants the request, with its bound address as long as its type says. What
-- it has written is its greeting, the credentials only where the proxy chose their method and they
-- were given, and the request.
pub socks5_connect-Exchanges :
    (credentials : Option Credentials) (target : List ℕ) (w : Wire) (b : List ℕ) (after : Wire)
    → socks5_connect credentials target w ≡ (gives b, after)
    → Exchanges credentials target w after
unfolding socks5_connect handshake
socks5_connect-Exchanges credentials target w b after h =
    let (x, v, checked, k) =
      >>=-gives (check_credentials credentials) (λ _. handshake credentials target) w h in
    let same = check_credentials-wire credentials w x v checked in
    let k' = rw (← same) at k in
    let (y, u, negotiation, rest) = >>=-gives (negotiate credentials) (λ _. connect target) w k' in
    let (negotiated, messages, method) = negotiate-Negotiates credentials w y u negotiation in
    let (head, bound, reply) = connect-Grants target u b after rest in
    record {
      negotiated = negotiated;
      messages = messages;
      between = u;
      head = head;
      bound = bound;
      method = method;
      reply = reply;
      took =
          Took-then w u after negotiated (head ++ bound) (greeting_message credentials ∷ messages)
            (connect_message target ∷ []) method.took reply.took;
    }
