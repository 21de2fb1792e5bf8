-- ===== src/Sse/Bounds.antt =====
-- packages/router/src/sse.ts: the limits of the reader, and what its payloads are.
use Prim.Native.Nat.{ℕ, suc}
use goatrouter.Common.{
  trim, ◌≤◌, ◌≡◌, refl, subst, true, false, not, ◌||◌, Option, none, some, List, [], ◌∷◌, ◌++◌,
  Text, codes, text_eq, All, All-append, length, ltb, ◌==◌, arith, inl, inr, Bool-cases,
}
use goatrouter.Errors.{ok, >>=-eq-ok}
use goatrouter.Model.{starts_with}
use goatrouter.Value.{Value, byte_length}
use goatrouter.Sse.{
  max_sse_line_bytes, max_sse_total_bytes, max_sse_malformed, newline, is_chunk, Line, skipped,
  done_marker, malformed_line, payload, strip_return, drop_five, read_payload, read_line, Consumed,
  record_malformed, as_consumed, Drained, front, after_line, Reader, TextDecoder, new_reader,
  consume_line, drain, push, push_all,
}
use goatrouter.Sse.Loop.{Result-cases, drain_line_end, drain_other}
use goatrouter.Sse.Accepted.{
  ok_inj, drained_of, check_line_bytes-Checked, push_in_time, push_empty, push-Accepted,
  push_all-First,
}

module _ (json_parse : Text → Option Value) where
  -- A payload is the text of a JSON object, and not the marker of the end.
  pub record IsPayload (s : Text) : Type 0 where
    pub chunk : is_chunk (json_parse s) ≡ true
    pub not_done : text_eq s (codes "[DONE]") ≡ false

  -- A line that is consumed without a throw, from a count within the limit.
  abbrev IsFound : Option Text → Type 0
  IsFound none = Unit
  IsFound (some s) = IsPayload s

  read_payload-IsPayload : (s t : Text) → read_payload json_parse s ≡ payload t → IsPayload t
  unfolding read_payload
  read_payload-IsPayload s t h = elim (Bool-cases (length s == 0)) [
    | inl empty ↦ cc (rw empty at h)
    | inr some_text ↦ elim (Bool-cases (text_eq s (codes "[DONE]"))) [
      | inl end ↦ cc (rw (some_text, end) at h)
      | inr other ↦ elim (Bool-cases (is_chunk (json_parse s))) [
        | inr bad ↦ cc (rw (some_text, other, bad) at h)
        | inl good ↦
            let same : s ≡ t = cc (rw (some_text, other, good) at h) in
            subst IsPayload same (record { chunk = good; not_done = other })
      ]
    ]
  ]

  read_line-IsPayload : (raw t : Text) → read_line json_parse raw ≡ payload t → IsPayload t
  unfolding read_line
  read_line-IsPayload raw t h =
      let line = strip_return raw in
      elim (Bool-cases (length line == 0 || starts_with (codes ":") line)) [
        | inl blank ↦ cc (rw blank at h)
        | inr other ↦ elim (Bool-cases (starts_with (codes "data:") line)) [
          | inr field ↦ cc (rw (other, field) at h)
          | inl data' ↦ read_payload-IsPayload (trim (drop_five line)) t (rw (other, data') at h)
        ]
      ]

  record Sound (c : Consumed) (found : Option Text) : Type 0 where
    few : c.malformed ≤ max_sse_malformed
    sound : IsFound found

  as_consumed-Sound :
      (m : ℕ) (line : Line) (found : Option Text)
      → ((t : Text) → line ≡ payload t → IsPayload t)
      → m ≤ max_sse_malformed
      → (as_consumed m line).result ≡ ok found
      → Sound (as_consumed m line) found
  unfolding record_malformed
  as_consumed-Sound m skipped found k few h =
      let same : none ≡ found = ok_inj h in record { few = few; sound = subst IsFound same tt }
  as_consumed-Sound m done_marker found k few h =
      let same : none ≡ found = ok_inj h in record { few = few; sound = subst IsFound same tt }
  as_consumed-Sound m malformed_line found k few h =
      elim (Bool-cases (ltb max_sse_malformed (suc m))) [
        | inl many ↦ cc (rw many at h)
        | inr within ↦
            let same : none ≡ found = ok_inj (rw within at h) in
            record { few = ground arith; sound = subst IsFound same tt }
      ]
  as_consumed-Sound m (payload t) found k few h =
      let same : some t ≡ found = ok_inj h in
      record { few = few; sound = subst IsFound same (k t refl) }

  -- A loop that does not throw.
  record Kept (d : Drained) (p : List Text) : Type 0 where
    few : d.malformed ≤ max_sse_malformed
    sound : All IsPayload p

  front-Kept :
      (found : Option Text) (more : Drained) (p : List Text)
      → IsFound found
      → ((q : List Text) → more.payloads ≡ ok q → Kept more q)
      → (front found more).payloads ≡ ok p
      → Kept (front found more) p
  front-Kept none more p f k h = k p h
  front-Kept (some s) more p f k h =
      let (q, paid, e) = >>=-eq-ok more.payloads _ h in
      let kept = k q paid in
      let same : (s ∷ q) ≡ p = ok_inj e in
      record { few = kept.few; sound = subst (All IsPayload) same (f, kept.sound) }

  after_line-Kept :
      (c : Consumed) (rest : Text) (more : Drained) (p : List Text)
      → ((found : Option Text) → c.result ≡ ok found → Sound c found)
      → (c.malformed ≤ max_sse_malformed → (q : List Text) → more.payloads ≡ ok q → Kept more q)
      → (after_line c rest more).payloads ≡ ok p
      → Kept (after_line c rest more) p
  after_line-Kept c rest more p s k h = elim (Result-cases c.result) [
    | inl (e, thrown) ↦ cc (rw thrown at h)
    | inr (found, result) ↦
        let sound = s found result in
        elim (Bool-cases c.terminated) [
          | inl ended ↦
              let last : Drained = record {
                payloads = ok [];
                buffer = rest;
                malformed = c.malformed;
                terminated = true;
              } in
              rw (result, ended)
                (front-Kept found last p sound.sound
                  (λ q e. record { few = sound.few; sound = subst (All IsPayload) (ok_inj e) tt })
                  (rw (result, ended) at h))
          | inr continues ↦
              rw (result, continues)
                (front-Kept found more p sound.sound (k sound.few) (rw (result, continues) at h))
        ]
  ]

  drain-Kept :
      (line s : Text) (m : ℕ) (p : List Text)
      → m ≤ max_sse_malformed
      → (drain json_parse line s m).payloads ≡ ok p
      → Kept (drain json_parse line s m) p
  unfolding drain consume_line
  drain-Kept line [] m p few h = record { few = few; sound = subst (All IsPayload) (ok_inj h) tt }
  drain-Kept line (c ∷ rest) m p few h = elim (Bool-cases (c == newline)) [
    | inl end ↦
        let step = drain_line_end json_parse line rest c m end in
        let consumed = consume_line json_parse m line in
        rw step (
          after_line-Kept consumed rest (drain json_parse [] rest consumed.malformed) p
            (λ found e.
              as_consumed-Sound m (read_line json_parse line) found (read_line-IsPayload line) few
                e)
            (λ still q e. drain-Kept [] rest consumed.malformed q still e) (rw step at h))
    | inr other ↦
        let step = drain_other json_parse line rest c m other in
        rw step (drain-Kept (line ++ (c ∷ [])) rest m p few (rw step at h))
  ]

module _ {D : Type 0} (json_parse : Text → Option Value) (td : TextDecoder D) where
  -- The limits of a reader that has accepted what it was given.
  pub record IsBounded (r : Reader D) : Type 0 where
    pub few : r.malformed ≤ max_sse_malformed
    pub total : r.total_bytes ≤ max_sse_total_bytes
    pub line : (r.terminated || not (ltb max_sse_line_bytes (byte_length r.buffer))) ≡ true

  push-IsBounded :
      (r : Reader D) (chunk : List ℕ) (p : List Text)
      → IsBounded r
      → (push json_parse td r chunk).0 ≡ ok p
      → IsBounded (push json_parse td r chunk).1 × All (IsPayload json_parse) p
  push-IsBounded r chunk p v h = elim (Bool-cases (length chunk == 0)) [
    | inl empty ↦
        let e = push_empty json_parse td r chunk (push_in_time json_parse td r chunk h) empty in
        let nothing : [] ≡ p = ok_inj (rw e at h) in
        rw e (v, subst (All (IsPayload json_parse)) nothing tt)
    | inr full ↦
        let a = push-Accepted json_parse td r chunk full h in
        let checked = check_line_bytes-Checked (drained_of json_parse td r chunk) a.checked in
        let kept =
          drain-Kept json_parse [] (r.buffer ++ (td.decode r.decoder chunk).0) r.malformed p v.few
            checked.payloads in
        rw a.after (record { few = kept.few; total = a.fits; line = checked.small }, kept.sound)
  ]

  -- Once a reader within the limits has accepted the chunks of a stream, it has counted at most 8
  -- malformed lines and 2 MiB, its open line is at most 64 KiB unless it has terminated, and every
  -- payload it gave is the text of a JSON object and not the marker of the end.
  pub push_all-IsBounded :
      (r : Reader D) (chunks : List (List ℕ)) (p : List Text)
      → IsBounded r
      → (push_all json_parse td r chunks).0 ≡ ok p
      → IsBounded (push_all json_parse td r chunks).1 × All (IsPayload json_parse) p
  unfolding push_all
  push_all-IsBounded r [] p v h = (v, subst (All (IsPayload json_parse)) (ok_inj h) tt)
  push_all-IsBounded r (chunk ∷ chunks) p v h =
      let f = push_all-First json_parse td r chunk chunks h in
      let (kept, sound) = push-IsBounded r chunk f.delivered v f.pushed in
      let (still, more) =
        push_all-IsBounded (push json_parse td r chunk).1 chunks f.others kept f.rest in
      rw (f.reader, f.all_of)
        (still, All-append (IsPayload json_parse) f.delivered f.others sound more)

  pub new_reader-IsBounded : IsBounded (new_reader td)
  unfolding byte_length
  new_reader-IsBounded = record { few = omega arith; total = omega arith; line = refl }
