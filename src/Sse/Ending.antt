-- ===== src/Sse/Ending.antt =====
-- packages/router/src/sse.ts: when `done` accepts a stream.
use Prim.Native.Nat.{ℕ, suc}
use goatrouter.Common.{
  trim, ◌↔◌, ◌⊎◌, ◌≡◌, refl, sym, ap, ◌∙◌, Bool, true, false, ◌||◌, Option, List, [], ◌∷◌, ◌++◌,
  Text, any, length, ltb, ◌==◌, arith, inl, inr, Bool-cases,
}
use goatrouter.Errors.{ok, invalid_response, require, ◌>>=◌}
use goatrouter.Value.{Value}
use goatrouter.Sse.{
  newline, Line, skipped, done_marker, malformed_line, payload, strip_return, max_sse_malformed,
  read_line, Consumed, record_malformed, as_consumed, Drained, after_line, Reader, TextDecoder,
  new_reader, consume_line, drain, push, done, push_all,
}
use goatrouter.Sse.Loop.{
  Result-cases, drain_line_end, drain_other, front_payloads, front-terminated, front-buffer,
}
use goatrouter.Sse.Accepted.{
  check_line_bytes-Checked, drained_of, settled, push-Accepted, push_empty,
}
use goatrouter.Sse.Cutting.{IsStreaming, joined, push_all-joined}

abbrev is_marker : Line → Bool
is_marker done_marker = true
is_marker _ = false

-- The lines of a text that end in "\n", the first of them after `line`, and what follows them.
unfoldable pub complete_lines : Text → Text → List Text
complete_lines line [] = []
complete_lines line (c ∷ rest) = elim (c == newline) [
  | true ↦ line ∷ complete_lines [] rest
  | false ↦ complete_lines (line ++ (c ∷ [])) rest
]

unfoldable pub last_line : Text → Text → Text
last_line line [] = line
last_line line (c ∷ rest) = elim (c == newline) [
  | true ↦ last_line [] rest
  | false ↦ last_line (line ++ (c ∷ [])) rest
]

as_consumed-terminated : (m : ℕ) (line : Line) → (as_consumed m line).terminated ≡ is_marker line
unfolding record_malformed
as_consumed-terminated m skipped = refl
as_consumed-terminated m done_marker = refl
as_consumed-terminated m malformed_line = refl
as_consumed-terminated m (payload s) = refl

-- A round of the loop that does not throw: it ends the loop, or the loop goes on.
record EndsHere (c : Consumed) (d : Drained) : Type 0 where
  now : c.terminated ≡ true
  ended : d.terminated ≡ true

record GoesOn (c : Consumed) (d more : Drained) : Type 0 where
  delivered : List Text
  later : c.terminated ≡ false
  paid : more.payloads ≡ ok delivered
  terminated : d.terminated ≡ more.terminated
  buffer : d.buffer ≡ more.buffer

after_line-cases :
    (c : Consumed) (rest : Text) (more : Drained) {p : List Text}
    → (after_line c rest more).payloads ≡ ok p
    → EndsHere c (after_line c rest more) ⊎ GoesOn c (after_line c rest more) more
after_line-cases c rest more h = elim (Result-cases c.result) [
  | inl (e, thrown) ↦ cc (rw thrown at h)
  | inr (found, result) ↦ elim (Bool-cases c.terminated) [
    | inl now ↦ inl (record {
      now = now;
      ended =
          rw (result, now)
            (front-terminated found (record {
              payloads = ok [];
              buffer = rest;
              malformed = c.malformed;
              terminated = true;
            }));
    })
    | inr later ↦
        let (q, paid) = front_payloads found more (rw (result, later) at h) in
        inr (record {
          delivered = q;
          later = later;
          paid = paid;
          terminated = rw (result, later) (front-terminated found more);
          buffer = rw (result, later) (front-buffer found more);
        })
  ]
]

module _ (json_parse : Text → Option Value) where
  abbrev pub is_end : Text → Bool
  is_end raw = is_marker (read_line json_parse raw)

  -- A text that ends its stream: a complete line is the marker, or what follows the last of them is,
  -- once it is trimmed.
  unfoldable pub ends : Text → Text → Bool
  ends text tail = any is_end (complete_lines [] text) || is_end (trim (last_line [] text ++ tail))

  -- Where the loop stands once it has not thrown.
  record Stands (d : Drained) (line s : Text) : Type 0 where
    terminated : d.terminated ≡ any is_end (complete_lines line s)
    buffer : d.terminated ≡ false → d.buffer ≡ last_line line s

  drain-Stands :
      (line s : Text) (m : ℕ) {p : List Text}
      → (drain json_parse line s m).payloads ≡ ok p
      → Stands (drain json_parse line s m) line s
  unfolding drain complete_lines last_line consume_line
  drain-Stands line [] m h = record { terminated = refl; buffer = λ _. refl }
  drain-Stands line (c ∷ rest) m {p = p} h = elim (Bool-cases (c == newline)) [
    | inl end ↦
        let consumed = consume_line json_parse m line in
        let step = drain_line_end json_parse line rest c m end in
        let more = drain json_parse [] rest consumed.malformed in
        let marked : consumed.terminated ≡ is_end line =
          as_consumed-terminated m (read_line json_parse line) in
        elim (after_line-cases consumed rest more (rw step at h)) [
          | inl here ↦ record {
            terminated = rw (step, end, complete_lines, here.ended, sym marked ∙ here.now) refl;
            buffer = λ open'. absurd (cc (rw step at open', here.ended));
          }
          | inr on ↦
              let stands = drain-Stands [] rest consumed.malformed on.paid in
              record {
                terminated =
                    rw (step, end, complete_lines, on.terminated, sym marked ∙ on.later)
                      stands.terminated;
                buffer = λ open'.
                    rw (step, end, last_line, on.buffer)
                      (stands.buffer (sym on.terminated ∙ (rw step at open')));
              }
        ]
    | inr other ↦
        let step = drain_other json_parse line rest c m other in
        let more = drain-Stands (line ++ (c ∷ [])) rest m (rw step at h) in
        record {
          terminated = rw (step, other, complete_lines) more.terminated;
          buffer = rw (step, other, last_line) more.buffer;
        }
  ]

marks_end :
    (m : ℕ) (line : Line)
    → (((as_consumed m line).result
          >>= (λ _. require (as_consumed m line).terminated invalid_response "sse-truncated"))
        ≡ ok tt)
      ↔ (is_marker line ≡ true)
unfolding record_malformed
marks_end m skipped = (λ h. cc h, λ h. cc h)
marks_end m done_marker = (λ h. refl, λ h. refl)
marks_end m (payload s) = (λ h. cc h, λ h. cc h)
marks_end m malformed_line = elim (Bool-cases (ltb max_sse_malformed (suc m))) [
  | inl many ↦ (λ h. cc (rw (record_malformed, many) at h), λ h. cc h)
  | inr few ↦ (λ h. cc (rw (record_malformed, few) at h), λ h. cc h)
]

module _ {D : Type 0} (json_parse : Text → Option Value) (td : TextDecoder D) where
  is_end_empty : (s : Text) → (length s == 0) ≡ true → is_end json_parse s ≡ false
  unfolding read_line strip_return
  is_end_empty [] h = refl
  is_end_empty (c ∷ s) h = ground arith

  done-ends :
      (r : Reader D) (text : Text)
      → r.terminated ≡ any (is_end json_parse) (complete_lines [] text)
      → (r.terminated ≡ false → r.buffer ≡ last_line [] text)
      → ((done json_parse td r).0 ≡ ok tt) ↔ (ends json_parse text (td.flush r.decoder) ≡ true)
  unfolding done ends consume_line
  done-ends r text t b = elim (Bool-cases r.terminated) [
    | inl ended ↦ (λ _. rw (ends, sym t ∙ ended) refl, λ _. rw (done, ended) refl)
    | inr open' ↦
        let trailing = trim (r.buffer ++ td.flush r.decoder) in
        let none_yet = sym t ∙ open' in
        let same = sym (b open') in
        elim (Bool-cases (length trailing == 0)) [
          | inl empty ↦ (
            λ h. cc (rw (done, open', empty) at h),
            λ h. cc (rw (ends, none_yet, same, is_end_empty trailing empty) at h),
          )
          | inr full ↦
              rw (ends, done, none_yet, same, open', full)
                (marks_end r.malformed (read_line json_parse trailing))
        ]
  ]

  -- Where an accepted chunk, pushed into a new reader, leaves it.
  push-stands :
      (streaming : IsStreaming td) (chunk : List ℕ) (p : List Text) (r : Reader D)
      → push json_parse td (new_reader td) chunk ≡ (ok p, r)
      → (r.terminated ≡ any (is_end json_parse) (complete_lines [] (td.decode td.fresh chunk).0))
        × (r.terminated ≡ false → r.buffer ≡ last_line [] (td.decode td.fresh chunk).0)
  unfolding complete_lines last_line
  push-stands streaming chunk p r h =
      elim chunk
          as (λ c.
            push json_parse td (new_reader td) c ≡ (ok p, r)
            → (r.terminated ≡ any (is_end json_parse) (complete_lines [] (td.decode td.fresh c).0))
              × (r.terminated ≡ false → r.buffer ≡ last_line [] (td.decode td.fresh c).0)) [
                | [] ↦ λ e.
                    let same : new_reader td ≡ r =
                      ap (λ x. x.1)
                        (sym (push_empty json_parse td (new_reader td) [] refl refl) ∙ e) in
                    rw (streaming.empty td.fresh, ← same) (refl, λ _. refl)
                | x ∷ xs ↦ λ e.
                    let r0 = new_reader td in
                    let a =
                      push-Accepted json_parse td r0 (x ∷ xs) {p = p} (ground arith)
                        (ap (λ y. y.0) e) in
                    let d = drained_of json_parse td r0 (x ∷ xs) in
                    let checked = check_line_bytes-Checked d a.checked in
                    let text = (td.decode td.fresh (x ∷ xs)).0 in
                    let s = drain-Stands json_parse [] text 0 checked.payloads in
                    let same : settled json_parse td r0 (x ∷ xs) ≡ r =
                      ap (λ y. y.1) (sym a.after ∙ e) in
                    rw (← same) (s.terminated, s.buffer)
              ]
        h

  -- A stream whose chunks are all accepted ends well exactly when a line of its text is the marker
  -- of the end: one of its complete lines, or what follows them, once it is trimmed. A stream that
  -- stops before that line is never taken for a complete one.
  pub done-ends_iff :
      (streaming : IsStreaming td) (chunks : List (List ℕ)) (p : List Text)
      → (push_all json_parse td (new_reader td) chunks).0 ≡ ok p
      → ((done json_parse td (push_all json_parse td (new_reader td) chunks).1).0 ≡ ok tt) ↔ (
          ends json_parse
            (td.decode td.fresh (joined chunks)).0
            (td.flush (push_all json_parse td (new_reader td) chunks).1.decoder)
          ≡ true)
  done-ends_iff streaming chunks p h =
      let r = (push_all json_parse td (new_reader td) chunks).1 in
      let once = push_all-joined json_parse td streaming (new_reader td) chunks refl h in
      let (t, b) = push-stands streaming (joined chunks) p r once in
      done-ends r (td.decode td.fresh (joined chunks)).0 t b
