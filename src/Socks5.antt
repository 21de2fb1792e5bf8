-- ===== src/Socks5.antt =====
-- packages/proxy/src/socks5.ts: the handshake of `socks5Connect`, past the encoding of its target.
-- The credentials are the bytes of the user name and the password. Bytes are numbers.
pub mod Took
pub mod Methods
pub mod Replies
pub mod Exchange
mod Tests
use Prim.Native.Nat.{ℕ}
use goatrouter.Common.{
  ◌+◌, Bool, true, false, not, ◌||◌, Option, none, some, List, [], ◌∷◌, ◌++◌, any, length, ltb,
  ◌==◌, if◌then◌else◌,
}
use goatrouter.Handshake.{
  ProxyErrorCode, proxy_error, forbidden, unreachable, refused, timeout, unsupported_operation,
  protocol_error, auth_failed, invalid_proxy_config, password_missing, Wire, Done, ◌>>=◌, ◌>>◌,
  give, throw, ensure, write, read_exactly,
}

-- RFC 1928 section 6.
unfoldable pub map_reply : ℕ → Option ProxyErrorCode
map_reply reply =
    if reply == 0
    then none
    else (if reply == 1
        then some proxy_error
        else (if reply == 2
            then some forbidden
            else (if reply == 3 || reply == 4
                then some unreachable
                else (if reply == 5
                    then some refused
                    else (if reply == 6
                        then some timeout
                        else (if reply == 7 || reply == 8
                            then some unsupported_operation
                            else some protocol_error))))))

pub record Credentials : Type 0 where
  pub username : List ℕ
  pub password : List ℕ

-- `buffer[i]`, which is within bounds wherever it is read.
abbrev pub byte_0 : List ℕ → ℕ
byte_0 [] = 0
byte_0 (a ∷ s) = a

abbrev pub byte_1 : List ℕ → ℕ
byte_1 [] = 0
byte_1 (a ∷ s) = byte_0 s

abbrev pub byte_3 : List ℕ → ℕ
byte_3 (a ∷ b ∷ c ∷ s) = byte_0 s
byte_3 _ = 0

abbrev pub offered_methods : Option Credentials → List ℕ
offered_methods none = 0 ∷ []
offered_methods (some credentials) = 0 ∷ 2 ∷ []

-- `Buffer.from([VERSION, methods.length, ...methods])`, and the other messages that are sent.
abbrev pub greeting_message : Option Credentials → List ℕ
greeting_message credentials =
    5 ∷ length (offered_methods credentials) ∷ offered_methods credentials

abbrev pub credentials_message : Credentials → List ℕ
credentials_message c =
    (1 ∷ length c.username ∷ []) ++ c.username ++ (length c.password ∷ []) ++ c.password

abbrev pub connect_message : List ℕ → List ℕ
connect_message target = (5 ∷ 1 ∷ 0 ∷ []) ++ target

-- The reply to the credentials.
unfoldable pub accept_credentials : List ℕ → Wire → Done (Unit {0}) × Wire
accept_credentials reply = do
  ensure (byte_0 reply == 1) protocol_error "socks5-userpass-version"
  ensure (byte_1 reply == 0) auth_failed "socks5-userpass-status"
  give tt

-- The exchange of credentials; with none of them the cast of `username` fails, which the handler of
-- the handshake turns into its own error.
unfoldable pub send_credentials : Option Credentials → Wire → Done (Unit {0}) × Wire
send_credentials none = throw protocol_error "socks5-handshake"
send_credentials (some c) = write (credentials_message c) >> (read_exactly 2 >>= accept_credentials)

-- The method of the proxy, and the exchange that it asks for.
unfoldable pub accept_method : Option Credentials → List ℕ → Wire → Done (Unit {0}) × Wire
accept_method credentials greeting = do
  ensure (byte_0 greeting == 5) protocol_error "socks5-version"
  ensure (not (byte_1 greeting == 0xff)) auth_failed "socks5-no-method"
  ensure (any (λ method. method == byte_1 greeting) (offered_methods credentials)) protocol_error
      "socks5-method"
  if byte_1 greeting == 2 then send_credentials credentials else give tt

unfoldable pub negotiate : Option Credentials → Wire → Done (Unit {0}) × Wire
negotiate credentials =
    write (greeting_message credentials) >> (read_exactly 2 >>= accept_method credentials)

abbrev pub read_domain : List ℕ → Wire → Done (List ℕ) × Wire
read_domain size = read_exactly (byte_0 size + 2)

-- The bound address of a reply, by its type.
unfoldable pub read_bound_address : ℕ → Wire → Done (List ℕ) × Wire
read_bound_address atyp =
    if atyp == 1
    then read_exactly (4 + 2)
    else (if atyp == 4
        then read_exactly (16 + 2)
        else (if atyp == 3
            then read_exactly 1 >>= read_domain
            else throw protocol_error "socks5-reply-atyp"))

unfoldable pub check_reply : ℕ → Wire → Done (Unit {0}) × Wire
check_reply reply = elim (map_reply reply) [
  | none ↦ give tt
  | some code ↦ throw code "socks5-connect"
]

-- The reply to the request.
unfoldable pub accept_head : List ℕ → Wire → Done (List ℕ) × Wire
accept_head head = do
  ensure (byte_0 head == 5) protocol_error "socks5-reply-version"
  check_reply (byte_1 head)
  read_bound_address (byte_3 head)

unfoldable pub connect : List ℕ → Wire → Done (List ℕ) × Wire
connect target = write (connect_message target) >> (read_exactly 4 >>= accept_head)

-- The handshake over a connected socket; what it gives is the bound address, which is dropped.
unfoldable pub handshake : Option Credentials → List ℕ → Wire → Done (List ℕ) × Wire
handshake credentials target = negotiate credentials >> connect target

-- The checks before a byte is sent.
unfoldable pub check_credentials : Option Credentials → Wire → Done (Unit {0}) × Wire
check_credentials none = give tt
check_credentials (some c) = do
  ensure (not (length c.password == 0)) password_missing "socks5-userpass"
  ensure
      (not (ltb 255 (length c.username) || ltb 255 (length c.password) || length c.username == 0))
      invalid_proxy_config "socks5-credential-length"
  give tt

unfoldable pub socks5_connect : Option Credentials → List ℕ → Wire → Done (List ℕ) × Wire
socks5_connect credentials target = do check_credentials credentials; handshake credentials target
