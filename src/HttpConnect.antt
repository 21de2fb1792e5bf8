-- ===== src/HttpConnect.antt =====
-- packages/proxy/src/http-connect.ts: the handshake of `httpConnect`, from the authority of its target.
-- The base64 text of the credentials is an argument. Bytes are numbers, read as Latin-1.
pub mod Tunnel
mod Tests
use Prim.Native.Nat.{ℕ, zero, suc}
use goatrouter.Common.{
  ◌+◌, ◌-◌, ◌*◌, Bool, true, false, not, ◌&&◌, ◌||◌, Option, none, some, List, [], ◌∷◌, ◌++◌, Text,
  codes, leb, ltb, ◌==◌, if◌then◌else◌,
}
use goatrouter.Model.{starts_with}
use goatrouter.Handshake.{
  ProxyErrorCode, proxy_error, forbidden, unreachable, protocol_error, auth_failed, Wire, Done,
  ◌>>=◌, ◌>>◌, give, throw, write, read_exactly,
}

abbrev pub max_header_bytes : ℕ
max_header_bytes = 16 * 1024

unfoldable pub map_status : ℕ → Option ProxyErrorCode
map_status status =
    if leb 200 status && ltb status 300
    then none
    else (if status == 401 || status == 407
        then some auth_failed
        else (if status == 403
            then some forbidden
            else (if status == 502 || status == 504 then some unreachable else some proxy_error)))

abbrev line_end : Text
line_end = 13 ∷ 10 ∷ []

-- The header lines, joined and ended.
abbrev pub request_message : Text → Option Text → Text
request_message authority authorization =
    codes "CONNECT "
    ++ authority
    ++ codes " HTTP/1.1"
    ++ line_end
    ++ codes "host: "
    ++ authority
    ++ (elim authorization [
      | none ↦ []
      | some encoded ↦ line_end ++ codes "proxy-authorization: Basic " ++ encoded
    ])
    ++ line_end
    ++ line_end

-- The last four bytes are "\r\n\r\n".
unfoldable pub ends_block : List ℕ → Bool
ends_block (a ∷ b ∷ c ∷ d ∷ []) = a == 13 && (b == 10 && (c == 13 && d == 10))
ends_block (a ∷ b ∷ c ∷ d ∷ e ∷ s) = ends_block (b ∷ c ∷ d ∷ e ∷ s)
ends_block _ = false

-- A block that has no room left ends with its next byte, or is refused.
abbrev pub finish_header : List ℕ → Wire → Done (List ℕ) × Wire
finish_header block =
    if ends_block block then give block else throw protocol_error "http-connect-headers-too-large"

-- A block that ends, or the next round of the loop.
abbrev pub grow_header : List ℕ → (Wire → Done (List ℕ) × Wire) → Wire → Done (List ℕ) × Wire
grow_header block round = if ends_block block then give block else round

-- The loop over the header, with the room that a block that does not end yet has to grow: the length
-- of the block and the room make `MAX_HEADER_BYTES`, so that a block past them has none left.
unfoldable pub read_header : ℕ → List ℕ → Wire → Done (List ℕ) × Wire
read_header zero block = read_exactly 1 >>= (λ next. finish_header (block ++ next))
read_header (suc room) block =
    read_exactly 1
    >>= (λ next. grow_header (block ++ next) (λ u. read_header room (block ++ next) u))

-- `block.subarray(0, block.indexOf("\r\n"))` of a block that has one.
unfoldable pub status_line : List ℕ → List ℕ
status_line [] = []
status_line (a ∷ []) = a ∷ []
status_line (a ∷ b ∷ s) = elim (a == 13 && b == 10) [ true ↦ [] | false ↦ a ∷ status_line (b ∷ s) ]

abbrev is_digit : ℕ → Bool
is_digit c = leb b'0' c && leb c b'9'

-- `(\d{3})(?: |$)`, as a number.
unfoldable pub read_status : List ℕ → Option ℕ
read_status (a ∷ b ∷ c ∷ rest) =
    if is_digit a && (is_digit b && (is_digit c && (elim rest [ [] ↦ true | d ∷ _ ↦ d == 0x20 ])))
    then some ((a - b'0') * 100 + (b - b'0') * 10 + (c - b'0'))
    else none
read_status _ = none

-- `STATUS_LINE_RE`.
unfoldable pub match_status : List ℕ → Option ℕ
match_status (h ∷ t ∷ u ∷ p ∷ slash ∷ one ∷ dot ∷ minor ∷ space ∷ rest) =
    if starts_with (codes "HTTP/1.") (h ∷ t ∷ u ∷ p ∷ slash ∷ one ∷ dot ∷ [])
      && ((minor == b'0' || minor == b'1') && space == 0x20)
    then read_status rest
    else none
match_status _ = none

-- The stage of a status that fails names it; here it is left out.
unfoldable pub accept_status : List ℕ → Wire → Done (Unit {0}) × Wire
accept_status block = elim (match_status (status_line block)) [
  | none ↦ throw protocol_error "http-connect-status-line"
  | some status ↦ elim (map_status status) [
    | some code ↦ throw code "http-connect-status"
    | none ↦ give tt
  ]
]

unfoldable pub http_connect : Text → Option Text → Wire → Done (Unit {0}) × Wire
http_connect authority authorization =
    write (request_message authority authorization)
    >> (read_header max_header_bytes [] >>= accept_status)
