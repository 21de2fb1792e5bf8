-- ===== src/Sse.antt =====
-- packages/router/src/sse.ts: the encoder of server-sent events and the bounded incremental reader.
-- The decoder of `TextDecoder` and `JSON.parse` are parameters (`JSON.parse` is none where it
-- throws), and so is `JSON.stringify`. The loop of `push` scans the buffer for "\n" once.
pub mod Loop
pub mod Accepted
pub mod Cutting
pub mod Throws
pub mod Recut
pub mod Bounds
pub mod Frames
pub mod Ending
mod Tests
use Prim.Native.Nat.{ℕ, suc}
use goatrouter.Common.{
  trim, ◌+◌, ◌*◌, Bool, true, false, ◌&&◌, ◌||◌, Option, none, some, List, [], ◌∷◌, ◌++◌, Text,
  codes, text_eq, any, length, leb, ltb, ◌==◌, if◌then◌else◌,
}
use goatrouter.Errors.{
  Result, ok, err, router_error, invalid_response, response_too_large, require, ◌>>=◌,
}
use goatrouter.Model.{starts_with}
use goatrouter.Value.{Value, object, byte_length}

abbrev pub max_sse_line_bytes : ℕ
max_sse_line_bytes = 64 * 1024

abbrev pub max_sse_total_bytes : ℕ
max_sse_total_bytes = 2 * 1024 * 1024

abbrev pub max_sse_malformed : ℕ
max_sse_malformed = 8

abbrev pub newline : ℕ
newline = 10

abbrev return : ℕ
return = 13

-- What `JSON.stringify` does: it throws, gives `undefined`, or gives a text.
pub data Stringified : Type 0 where
  throws nothing : Stringified
  json : Text → Stringified

-- `/[\r\n]/.test(json)`.
unfoldable pub has_line_end : Text → Bool
has_line_end s = any (λ c. c == return || c == newline) s

unfoldable pub frame : Text → Text
frame s = codes "data: " ++ s ++ (newline ∷ newline ∷ [])

-- `encodeSseEvent`, past `JSON.stringify`.
unfoldable pub encode_sse_event : Stringified → Result Text
encode_sse_event throws = err (router_error invalid_response "sse-encode")
encode_sse_event nothing = err (router_error invalid_response "sse-encode-undefined")
encode_sse_event (json s) =
    if has_line_end s
    then err (router_error invalid_response "sse-encode-newline")
    else ok (frame s)

unfoldable pub encode_sse_done : Text
encode_sse_done = frame (codes "[DONE]")

-- `raw.endsWith("\r") ? raw.slice(0, -1) : raw`.
unfoldable pub strip_return : Text → Text
strip_return [] = []
strip_return (c ∷ []) = if c == return then [] else c ∷ []
strip_return (c ∷ d ∷ s) = c ∷ strip_return (d ∷ s)

-- `line.slice(5)`.
unfoldable pub drop_five : Text → Text
drop_five (a ∷ b ∷ c ∷ d ∷ e ∷ s) = s
drop_five _ = []

-- A parsed value that is an object, not null and not an array.
unfoldable pub is_chunk : Option Value → Bool
is_chunk (some (object plain props)) = true
is_chunk _ = false

-- What a line is, before it is counted.
pub data Line : Type 0 where
  skipped done_marker malformed_line : Line
  payload : Text → Line

module _ (json_parse : Text → Option Value) where
  unfoldable pub read_payload : Text → Line
  read_payload s =
      if length s == 0
      then skipped
      else (if text_eq s (codes "[DONE]")
          then done_marker
          else (if is_chunk (json_parse s) then payload s else malformed_line))

  unfoldable pub read_line : Text → Line
  read_line raw =
      let line = strip_return raw in
      if length line == 0 || starts_with (codes ":") line
      then skipped
      else (if starts_with (codes "data:") line
          then read_payload (trim (drop_five line))
          else skipped)

-- What a line does to a reader that is not terminated, `malformed` lines being counted before.
pub record Consumed : Type 0 where
  pub result : Result (Option Text)
  pub malformed : ℕ
  pub terminated : Bool

unfoldable pub record_malformed : ℕ → Consumed
record_malformed malformed = record {
  result =
      if ltb max_sse_malformed (suc malformed)
      then err (router_error invalid_response "sse-malformed-limit")
      else ok none;
  malformed = suc malformed;
  terminated = false;
}

abbrev pub as_consumed : ℕ → Line → Consumed
as_consumed malformed skipped = record {
  result = ok none;
  malformed = malformed;
  terminated = false;
}
as_consumed malformed (payload s) = record {
  result = ok (some s);
  malformed = malformed;
  terminated = false;
}
as_consumed malformed done_marker = record {
  result = ok none;
  malformed = malformed;
  terminated = true;
}
as_consumed malformed malformed_line = record_malformed malformed

-- What the loop of `push` leaves.
pub record Drained : Type 0 where
  pub payloads : Result (List Text)
  pub buffer : Text
  pub malformed : ℕ
  pub terminated : Bool

-- `payloads.push(payload)` before the rest of the loop.
abbrev pub front : Option Text → Drained → Drained
front none more = more
front (some s) more = record {
  payloads = more.payloads >>= (λ rest. ok (s ∷ rest));
  buffer = more.buffer;
  malformed = more.malformed;
  terminated = more.terminated;
}

-- The round of the loop after a line: a throw, the early return, or the next line.
abbrev pub after_line : Consumed → Text → Drained → Drained
after_line line rest more = elim line.result [
  | err thrown ↦ record {
    payloads = err thrown;
    buffer = rest;
    malformed = line.malformed;
    terminated = line.terminated;
  }
  | ok found ↦
      if line.terminated
      then front found (record {
        payloads = ok [];
        buffer = rest;
        malformed = line.malformed;
        terminated = true;
      })
      else front found more
]

-- `SseLineReader`, with the state of its decoder.
pub record Reader (D : Type 0) : Type 0 where
  pub buffer : Text
  pub total_bytes : ℕ
  pub malformed : ℕ
  pub terminated : Bool
  pub decoder : D

-- `TextDecoder`: `decode(chunk, { stream: true })` and the last `decode()`.
pub record TextDecoder (D : Type 0) : Type 0 where
  pub fresh : D
  pub decode : D → List ℕ → Text × D
  pub flush : D → Text

abbrev pub new_reader : {D : Type 0} → TextDecoder D → Reader D
new_reader td = record {
  buffer = [];
  total_bytes = 0;
  malformed = 0;
  terminated = false;
  decoder = td.fresh;
}

module _ (json_parse : Text → Option Value) where
  unfoldable pub consume_line : ℕ → Text → Consumed
  consume_line malformed raw = as_consumed malformed (read_line json_parse raw)

  -- The loop over a buffer of which `line` is read and holds no "\n".
  unfoldable pub drain : Text → Text → ℕ → Drained
  drain line [] malformed = record {
    payloads = ok [];
    buffer = line;
    malformed = malformed;
    terminated = false;
  }
  drain line (c ∷ rest) malformed = elim (c == newline) [
    | true ↦
        let consumed = consume_line malformed line in
        after_line consumed rest (drain [] rest consumed.malformed)
    | false ↦ drain (line ++ (c ∷ [])) rest malformed
  ]

-- The check after the loop, where it did not return early.
abbrev pub check_line_bytes : Drained → Result (List Text)
check_line_bytes d = d.payloads >>= (λ delivered.
    if d.terminated
    then ok delivered
    else (if ltb max_sse_line_bytes (byte_length d.buffer)
        then err (router_error response_too_large "sse-line-bytes")
        else ok delivered))

-- The loop and its check on a buffer, with the bytes and the decoder as they are then.
abbrev pub settle_buffer : {D : Type 0} → Drained → ℕ → D → Result (List Text) × Reader D
settle_buffer d total decoder = (
  check_line_bytes d,
  record {
    buffer = d.buffer;
    total_bytes = total;
    malformed = d.malformed;
    terminated = d.terminated;
    decoder = decoder;
  },
)

abbrev pub with_total : {D : Type 0} → Reader D → ℕ → Reader D
with_total r total = record {
  buffer = r.buffer;
  total_bytes = total;
  malformed = r.malformed;
  terminated = r.terminated;
  decoder = r.decoder;
}

abbrev pub flushed : {D : Type 0} → Reader D → ℕ → Bool → Reader D
flushed r malformed terminated = record {
  buffer = [];
  total_bytes = r.total_bytes;
  malformed = malformed;
  terminated = terminated;
  decoder = r.decoder;
}

module _ {D : Type 0} (json_parse : Text → Option Value) (td : TextDecoder D) where
  unfoldable pub push : Reader D → List ℕ → Result (List Text) × Reader D
  push r chunk =
      let total = r.total_bytes + length chunk in
      let decoded = td.decode r.decoder chunk in
      if r.terminated
      then (err (router_error invalid_response "sse-after-done"), r)
      else (if length chunk == 0
          then (ok [], r)
          else (if ltb max_sse_total_bytes total
              then (err (router_error response_too_large "sse-total-bytes"), with_total r total)
              else settle_buffer (drain json_parse [] (r.buffer ++ decoded.0) r.malformed) total
                  decoded.1))

  -- `done()`.
  unfoldable pub done : Reader D → Result (Unit {0}) × Reader D
  done r =
      let trailing = trim (r.buffer ++ td.flush r.decoder) in
      let consumed = consume_line json_parse r.malformed trailing in
      if r.terminated
      then (ok tt, flushed r r.malformed true)
      else (if length trailing == 0
          then (err (router_error invalid_response "sse-truncated"), flushed r r.malformed false)
          else (
            (consumed.result
                >>= (λ _. require consumed.terminated invalid_response "sse-truncated")),
            flushed r consumed.malformed consumed.terminated,
          ))

  -- The chunks of a stream, up to one that is refused.
  unfoldable pub push_all : Reader D → List (List ℕ) → Result (List Text) × Reader D
  push_all r [] = (ok [], r)
  push_all r (chunk ∷ chunks) =
      let first = push r chunk in
      elim first.0 [
        | err thrown ↦ (err thrown, first.1)
        | ok delivered ↦
            let more = push_all first.1 chunks in
            (more.0 >>= (λ rest. ok (delivered ++ rest)), more.1)
      ]
