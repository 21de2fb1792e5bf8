-- ===== src/Sse/Tests.antt =====
-- A stream of one event in two chunks, cut inside a line, and the theorems on the reader there.
use Prim.Native.Nat.{ℕ}
use goatrouter.Common.{
  is_space, trim_start, trim_end, ◌≤◌, ◌*◌, ◌≡◌, refl, ◌↔◌, true, false, Option, none, some, List,
  [], ◌∷◌, ◌++◌, Text, All, codes, text_eq, length, ◌==◌, if◌then◌else◌, arith,
}
use goatrouter.Errors.{ok}
use goatrouter.Model.{starts_with}
use goatrouter.Value.{Value, object, no_fields, byte_length}
use goatrouter.Sse.{
  newline, frame, encode_sse_event, encode_sse_done, has_line_end, is_chunk, strip_return,
  drop_five, read_payload, read_line, record_malformed, consume_line, drain, TextDecoder,
  new_reader, push, done, push_all,
}
use goatrouter.Sse.Cutting.{IsStreaming, joined, push_all-joined}
use goatrouter.Sse.Recut.{IsRecut, push_all-IsRecut}
use goatrouter.Sse.Bounds.{IsPayload, IsBounded, new_reader-IsBounded, push_all-IsBounded}
use goatrouter.Sse.Frames.{encode_all, IsEvent, push-encode_all}
use goatrouter.Sse.Ending.{ends, done-ends_iff}

abbrev json_parse : Text → Option Value
json_parse s = if text_eq s (codes "{}") then some (object true no_fields) else none

-- The decoder of a stream of ASCII characters.
abbrev ascii : TextDecoder (Unit {0})
ascii = record { fresh = tt; decode = λ d chunk. (chunk, d); flush = λ d. [] }

abbrev chunks : List (List ℕ)
chunks =
    codes "data: {"
    ∷ (codes "}" ++ (newline ∷ newline ∷ []) ++ codes "data: [DONE]" ++ (newline ∷ newline ∷ []))
    ∷ []

abbrev events : List Text
events = codes "{}" ∷ []

ascii-IsStreaming : IsStreaming ascii
ascii-IsStreaming = record { text = λ d a b. refl; empty = λ d. refl; state = λ d a b. refl }

accepts_chunks : (push_all json_parse ascii (new_reader ascii) chunks).0 ≡ ok events
unfolding push_all push drain consume_line read_line read_payload record_malformed strip_return
    drop_five starts_with trim_start trim_end is_space is_chunk text_eq byte_length
accepts_chunks = refl

push_all-joined_example :
    push json_parse ascii (new_reader ascii) (joined chunks)
    ≡ (ok events, (push_all json_parse ascii (new_reader ascii) chunks).1)
push_all-joined_example =
    push_all-joined json_parse ascii ascii-IsStreaming (new_reader ascii) chunks refl accepts_chunks

-- The end marker and the empty line after it, in two chunks.
abbrev late : List (List ℕ)
late = (codes "data: [DONE]" ++ (newline ∷ [])) ∷ (newline ∷ []) ∷ []

accepts_late :
    push json_parse ascii (new_reader ascii) (joined late)
    ≡ (ok [], (push json_parse ascii (new_reader ascii) (joined late)).1)
unfolding push drain consume_line read_line read_payload strip_return drop_five starts_with
    trim_start trim_end is_space text_eq
accepts_late = refl

push_all-IsRecut_example :
    IsRecut
      (push_all json_parse ascii (new_reader ascii) late)
      []
      (push json_parse ascii (new_reader ascii) (joined late)).1
push_all-IsRecut_example =
    push_all-IsRecut json_parse ascii ascii-IsStreaming (new_reader ascii) late []
      (push json_parse ascii (new_reader ascii) (joined late)).1 accepts_late

push_all-IsBounded_example :
    IsBounded json_parse ascii (push_all json_parse ascii (new_reader ascii) chunks).1
    × All (IsPayload json_parse) events
push_all-IsBounded_example =
    push_all-IsBounded json_parse ascii (new_reader ascii) chunks events
      (new_reader-IsBounded json_parse ascii) accepts_chunks

done-ends_iff_example :
    ((done json_parse ascii (push_all json_parse ascii (new_reader ascii) chunks).1).0 ≡ ok tt)
    ↔ (ends json_parse (joined chunks) [] ≡ true)
done-ends_iff_example =
    done-ends_iff json_parse ascii ascii-IsStreaming chunks events accepts_chunks

braces-IsEvent : IsEvent json_parse (codes "{}")
unfolding trim_start trim_end is_space is_chunk text_eq
braces-IsEvent = record {
  nonempty = refl;
  trimmed = refl;
  chunk = record { chunk = refl; not_done = refl };
}

encodes_events : encode_all events ≡ ok (frame (codes "{}"))
unfolding encode_all encode_sse_event has_line_end frame
encodes_events = refl

is_long : (length (frame (codes "{}") ++ encode_sse_done) == 0) ≡ false
unfolding frame encode_sse_done
is_long = refl

is_short : length (frame (codes "{}") ++ encode_sse_done) ≤ 2 * 1024 * 1024
unfolding frame encode_sse_done
is_short = omega arith

push-encode_all_example :
    ((push json_parse ascii (new_reader ascii) (frame (codes "{}") ++ encode_sse_done)).0
      ≡ ok events)
    × ((push json_parse ascii
          (new_reader ascii)
          (frame (codes "{}") ++ encode_sse_done)).1.malformed
        ≡ 0)
    × ((done json_parse ascii
          (push json_parse ascii (new_reader ascii) (frame (codes "{}") ++ encode_sse_done)).1).0
        ≡ ok tt)
push-encode_all_example =
    push-encode_all json_parse ascii events (frame (codes "{}"))
      (frame (codes "{}") ++ encode_sse_done) (braces-IsEvent, tt) encodes_events refl is_long
      is_short
