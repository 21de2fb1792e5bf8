-- ===== src/Sse/Frames.antt =====
-- packages/router/src/sse.ts: the frames that the encoder writes, read back.
use Prim.Native.Nat.{ℕ}
use mathlib.Core.List.{append_assoc, append-nil}
use goatrouter.Common.{
  is_space, trim_start, trim_end, trim, ◌+◌, ◌≤◌, ◌≡◌, refl, ap, ◌∙◌, true, false, Option, some,
  List, [], ◌∷◌, ◌++◌, Text, codes, text_eq, All, length, ◌==◌, arith, inl, inr, Bool-cases,
}
use goatrouter.Errors.{Result, ok, ◌>>=◌, >>=-eq-ok}
use goatrouter.Model.{starts_with}
use goatrouter.Value.{Value}
use goatrouter.Sse.{
  json, has_line_end, frame, encode_sse_event, encode_sse_done, newline, strip_return, drop_five,
  read_payload, read_line, payload, front, Drained, consume_line, drain, TextDecoder, new_reader,
  settle_buffer, push, done, max_sse_total_bytes,
}
use goatrouter.Sse.Loop.{
  prepend, prepend_nil, front-prepend_text, IsClean, drain_clean, drain_line_end,
}
use goatrouter.Sse.Accepted.{ok_inj, push_open}
use goatrouter.Sse.Bounds.{IsPayload}

-- `encodeSseEvent` on the texts that `JSON.stringify` gives, one frame after the other.
unfoldable pub encode_all : List Text → Result Text
encode_all [] = ok []
encode_all (s ∷ more) = do
  first ← encode_sse_event (json s)
  rest ← encode_all more
  ok (first ++ rest)

is_clean : (s : Text) → has_line_end s ≡ false → IsClean s
unfolding has_line_end
is_clean [] h = refl
is_clean (c ∷ s) h = ground (arith, is_clean s)

-- A line that does not end in "\r" is read whole.
strip_return_clean : (s : Text) → has_line_end s ≡ false → strip_return s ≡ s
unfolding has_line_end strip_return
strip_return_clean [] h = refl
strip_return_clean (c ∷ []) h = ground arith
strip_return_clean (c ∷ d ∷ s) h = ground (arith, strip_return_clean (d ∷ s))

-- A space in front of a trimmed text is removed.
trim_space : (s : Text) → trim s ≡ s → trim (0x20 ∷ s) ≡ s
unfolding trim_start is_space
trim_space s h = h

module _ (json_parse : Text → Option Value) where
  -- What `JSON.stringify` gives for an object: a text with no white space at its ends that
  -- `JSON.parse` reads as an object, and that is neither empty nor the marker of the end.
  pub record IsEvent (s : Text) : Type 0 where
    pub nonempty : (length s == 0) ≡ false
    pub trimmed : trim s ≡ s
    pub chunk : IsPayload json_parse s

  read_frame :
      (s : Text)
      → has_line_end s ≡ false
      → IsEvent s
      → read_line json_parse (codes "data: " ++ s) ≡ payload s
  unfolding read_line read_payload starts_with drop_five has_line_end
  read_frame s h e =
      let long : (length (codes "data: " ++ s) == 0) ≡ false = ground arith in
      rw
        (
          strip_return_clean (codes "data: " ++ s) h,
          long,
          trim_space s e.trimmed,
          e.nonempty,
          e.chunk.not_done,
          e.chunk.chunk,
        )
        refl

  -- The blank line after a frame.
  drain_blank :
      (rest : Text) (m : ℕ) → drain json_parse [] (newline ∷ rest) m ≡ drain json_parse [] rest m
  unfolding drain consume_line read_line strip_return
  drain_blank rest m = refl

  drain-frame :
      (s rest : Text) (m : ℕ)
      → has_line_end s ≡ false
      → IsEvent s
      → drain json_parse [] (frame s ++ rest) m ≡ front (some s) (drain json_parse [] rest m)
  unfolding frame consume_line has_line_end
  drain-frame s rest m h e =
      let line = codes "data: " ++ s in
      let clean : IsClean line = is_clean line h in
      ap (λ t. drain json_parse [] t m) (append_assoc line (newline ∷ newline ∷ []) rest)
      ∙ drain_clean json_parse [] line (newline ∷ newline ∷ rest) m clean
      ∙ drain_line_end json_parse line (newline ∷ rest) newline m refl
      ∙ rw (read_frame s h e, drain_blank rest m) refl

  encode_sse_event-ok :
      (s f : Text) → encode_sse_event (json s) ≡ ok f → (has_line_end s ≡ false) × (frame s ≡ f)
  unfolding encode_sse_event
  encode_sse_event-ok s f h = elim (Bool-cases (has_line_end s)) [
    | inl bad ↦ cc (rw bad at h)
    | inr good ↦ (good, ok_inj (rw good at h))
  ]

  drain-encode_all :
      (events : List Text) (text rest : Text) (m : ℕ)
      → All IsEvent events
      → encode_all events ≡ ok text
      → drain json_parse [] (text ++ rest) m ≡ prepend events (drain json_parse [] rest m)
  unfolding encode_all
  drain-encode_all [] text rest m v h =
      let nothing : [] ≡ text = ok_inj h in
      rw (← nothing) (prepend_nil (drain json_parse [] rest m))
  drain-encode_all (s ∷ more) text rest m (v, vs) h =
      let (f, one, k) = >>=-eq-ok (encode_sse_event (json s)) _ h in
      let (others, all_others, e) = >>=-eq-ok (encode_all more) _ k in
      let (clean, framed) = encode_sse_event-ok s f one in
      let whole : (f ++ others) ≡ text = ok_inj e in
      rw
        (
          ← whole,
          ← framed,
          append_assoc (frame s) others rest,
          drain-frame s (others ++ rest) m clean v,
          drain-encode_all more others rest m vs all_others,
        )
        (front-prepend_text s more (drain json_parse [] rest m))

  abbrev at_end : List Text → ℕ → Drained
  at_end payloads m = record {
    payloads = ok payloads;
    buffer = newline ∷ [];
    malformed = m;
    terminated = true;
  }

  drain-encode_sse_done : (m : ℕ) → drain json_parse [] encode_sse_done m ≡ at_end [] m
  unfolding encode_sse_done frame drain consume_line read_line strip_return starts_with drop_five
      read_payload text_eq trim_start trim_end is_space
  drain-encode_sse_done m = refl

module _ {D : Type 0} (json_parse : Text → Option Value) (td : TextDecoder D) where
  -- The frames that the encoder writes for events, followed by its end marker, are read back by a
  -- new reader: the payloads are the events in order, nothing is counted as malformed, the stream is
  -- terminated, and `done` succeeds. The chunk is not empty and within 2 MiB, the decoder gives the
  -- text written, and each event is what `JSON.stringify` gives for an object.
  pub push-encode_all :
      (events : List Text) (text : Text) (chunk : List ℕ)
      → All (IsEvent json_parse) events
      → encode_all events ≡ ok text
      → (td.decode td.fresh chunk).0 ≡ text ++ encode_sse_done
      → (length chunk == 0) ≡ false
      → length chunk ≤ max_sse_total_bytes
      → ((push json_parse td (new_reader td) chunk).0 ≡ ok events)
        × ((push json_parse td (new_reader td) chunk).1.malformed ≡ 0)
        × ((done json_parse td (push json_parse td (new_reader td) chunk).1).0 ≡ ok tt)
  unfolding done
  push-encode_all events text chunk v h decoded full fits =
      let total = (new_reader td).total_bytes + length chunk in
      let decoded' = (td.decode td.fresh chunk).1 in
      let read =
        ap (λ t. drain json_parse [] t 0) decoded
        ∙ drain-encode_all json_parse events text encode_sse_done 0 v h
        ∙ ap (prepend events) (drain-encode_sse_done json_parse 0)
        ∙ ap (λ l. at_end json_parse l 0) (append-nil events) in
      let whole : push json_parse td (new_reader td) chunk
          ≡ settle_buffer (at_end json_parse events 0) total decoded' =
        push_open json_parse td (new_reader td) chunk refl full (omega arith)
        ∙ ap (λ d. settle_buffer d total decoded') read in
      rw whole (refl, refl, refl)
