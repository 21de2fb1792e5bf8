-- ===== src/Handshake.antt =====
-- packages/proxy/src/handshake-reader.ts and errors.ts: the reader of a proxy's replies over a socket.
-- The socket is the list of the events that it will deliver before the deadline; the reader handles
-- one each time it waits, and a wait with none left is the timeout. Bytes are numbers. `release` is
-- what both handshakes do last, before they return and before they throw: it puts the unread bytes
-- back on the socket, and is modelled as `release_stream`, a view of the wire that a handshake
-- leaves, and not as a step of the handshake; the listeners that it takes off are not modelled.
pub mod Reading
pub mod Arrivals
mod Tests
use Prim.Native.Nat.{ℕ, zero, suc}
use Prim.Native.String.{String}
use goatrouter.Common.{
  Bool, true, false, Option, none, some, List, [], ◌∷◌, ◌++◌, length, leb, if◌then◌else◌,
}

pub data ProxyErrorCode : Type 0 where
  invalid_proxy_id invalid_proxy_config proxy_already_exists proxy_not_found : ProxyErrorCode
  password_missing unsupported_operation unreachable refused timeout : ProxyErrorCode
  auth_failed forbidden protocol_error proxy_error : ProxyErrorCode

pub record ProxyError : Type 0 where
  pub code : ProxyErrorCode
  pub stage : String

abbrev pub error_at : ProxyErrorCode → String → ProxyError
error_at code stage = record { code = code; stage = stage }

-- `data`, `end` or `close`, and `error`.
pub data SocketEvent : Type 0 where
  arrives : List ℕ → SocketEvent
  closes breaks : SocketEvent

-- The fields of `HandshakeReader`, its chunks as one list of bytes.
pub record Inbox : Type 0 where
  pub buffered : List ℕ
  pub ended : Bool
  pub failed : Bool

-- `onData`, `onEnd` and `onError`.
abbrev pub receive : Inbox → SocketEvent → Inbox
receive i (arrives chunk) = record {
  buffered = i.buffered ++ chunk;
  ended = i.ended;
  failed = i.failed;
}
receive i closes = record { buffered = i.buffered; ended = true; failed = i.failed }
receive i breaks = record { buffered = i.buffered; ended = i.ended; failed = true }

-- A round of the loop of `readExactly`, up to the deadline.
pub data Round : Type 0 where
  enough waits : Round
  stops : ProxyError → Round

unfoldable pub check_round : ℕ → Inbox → Round
check_round count i =
    if leb count (length i.buffered)
    then enough
    else (if i.failed
        then stops (error_at protocol_error "handshake-socket-error")
        else (if i.ended then stops (error_at protocol_error "handshake-truncated") else waits))

pub record Filled : Type 0 where
  pub error : Option ProxyError
  pub inbox : Inbox
  pub events : List SocketEvent

abbrev pub filled : Option ProxyError → Inbox → List SocketEvent → Filled
filled error inbox events = record { error = error; inbox = inbox; events = events }

-- The loop of `readExactly`.
unfoldable pub fill : ℕ → Inbox → List SocketEvent → Filled
fill count i [] = elim (check_round count i) [
  | enough ↦ filled none i []
  | stops e ↦ filled (some e) i []
  | waits ↦ filled (some (error_at timeout "handshake-read")) i []
]
fill count i (event ∷ events) = elim (check_round count i) [
  | enough ↦ filled none i (event ∷ events)
  | stops e ↦ filled (some e) i (event ∷ events)
  | waits ↦ fill count (receive i event) events
]

unfoldable pub take : ℕ → List ℕ → List ℕ
take zero s = []
take (suc n) [] = []
take (suc n) (c ∷ s) = c ∷ take n s

unfoldable pub drop : ℕ → List ℕ → List ℕ
drop zero s = s
drop (suc n) [] = []
drop (suc n) (c ∷ s) = drop n s

-- The reader, the events to come, and what was written to the socket.
pub record Wire : Type 0 where
  pub inbox : Inbox
  pub events : List SocketEvent
  pub written : List (List ℕ)

-- A statement that may throw.
pub data Done (A : Type 0) : Type 0 where
  throws : ProxyError → Done A
  gives : A → Done A

abbrev pub Action : Type 0 → Type 0
Action A = Wire → Done A × Wire

infixl 5 ◌>>=◌
abbrev pub ◌>>=◌ :
    {A B : Type 0} → (Wire → Done A × Wire) → (A → Wire → Done B × Wire) → Wire → Done B × Wire
(first >>= next) w = elim (first w).0 [
  | throws e ↦ (throws e, (first w).1)
  | gives a ↦ next a (first w).1
]

infixl 5 ◌>>◌
abbrev pub ◌>>◌ :
    {A B : Type 0} → (Wire → Done A × Wire) → (Wire → Done B × Wire) → Wire → Done B × Wire
first >> next = first >>= (λ _. next)

abbrev pub give : {A : Type 0} → A → Wire → Done A × Wire
give a w = (gives a, w)

abbrev pub throw : {A : Type 0} → ProxyErrorCode → String → Wire → Done A × Wire
throw code stage w = (throws (error_at code stage), w)

-- `if (!test) throw new ProxyError(code, stage)`.
abbrev pub ensure : Bool → ProxyErrorCode → String → Wire → Done (Unit {0}) × Wire
ensure test code stage = if test then give tt else throw code stage

-- `socket.write(payload)`.
abbrev pub write : List ℕ → Wire → Done (Unit {0}) × Wire
write payload w =
    (gives tt, record { inbox = w.inbox; events = w.events; written = w.written ++ (payload ∷ []) })

unfoldable pub read_exactly : ℕ → Wire → Done (List ℕ) × Wire
read_exactly count w =
    let f = fill count w.inbox w.events in
    elim f.error [
      | some e ↦ (throws e, record { inbox = f.inbox; events = f.events; written = w.written })
      | none ↦ (
        gives (take count f.inbox.buffered),
        record {
          inbox = record {
            buffered = drop count f.inbox.buffered;
            ended = f.inbox.ended;
            failed = f.inbox.failed;
          };
          events = f.events;
          written = w.written;
        },
      )
    ]

-- The bytes that the socket still delivers.
abbrev pub to_come : List SocketEvent → List ℕ
to_come [] = []
to_come (arrives chunk ∷ events) = chunk ++ to_come events
to_come (closes ∷ events) = to_come events
to_come (breaks ∷ events) = to_come events

-- What a reader of the socket gets after `release`, which puts the buffered bytes back in front.
abbrev pub release_stream : Wire → List ℕ
release_stream w = w.inbox.buffered ++ to_come w.events
