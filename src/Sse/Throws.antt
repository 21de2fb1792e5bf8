-- ===== src/Sse/Throws.antt =====
-- packages/router/src/sse.ts: a loop that throws, and the check after it.
use Prim.Native.Nat.{ℕ}
use goatrouter.Common.{
  ◌⊎◌, ◌≡◌, refl, Option, none, some, List, [], ◌∷◌, ◌++◌, Text, ◌==◌, ltb, inl, inr, Bool-cases,
}
use goatrouter.Errors.{Result, RouterError, ok, err, router_error, response_too_large, ◌>>=◌}
use goatrouter.Value.{Value, byte_length}
use goatrouter.Sse.{
  newline, max_sse_line_bytes, Consumed, Drained, front, after_line, consume_line, drain,
  check_line_bytes,
}
use goatrouter.Sse.Loop.{Result-cases, prepend, drain_line_end, drain_other}

then_err :
    (r : Result (List Text)) (f : List Text → List Text) {e : RouterError}
    → (r >>= (λ rest. ok (f rest))) ≡ err e
    → r ≡ err e
then_err (err x) f h = h
then_err (ok a) f h = cc h

err_then :
    (r : Result (List Text)) (f : List Text → List Text) {e : RouterError}
    → r ≡ err e
    → (r >>= (λ rest. ok (f rest))) ≡ err e
err_then r f h = rw h refl

front_err :
    (found : Option Text) (more next : Drained) {e : RouterError}
    → (front found more).payloads ≡ err e
    → (more.payloads ≡ err e → next.payloads ≡ err e)
    → (front found next).payloads ≡ err e
front_err none more next h k = k h
front_err (some s) more next h k =
    err_then next.payloads (λ rest. s ∷ rest) (k (then_err more.payloads (λ rest. s ∷ rest) h))

front_ended :
    (found : Option Text) (d : Drained) {e : RouterError}
    → d.payloads ≡ ok []
    → (front found d).payloads ≡ err e
    → ⊥
front_ended none d h k = cc (h, k)
front_ended (some s) d h k = cc (rw h at k)

-- A loop that throws goes on to throw when more text follows.
after_line_err :
    (line : Consumed) (rest other : Text) (more next : Drained) {e : RouterError}
    → (after_line line rest more).payloads ≡ err e
    → (more.payloads ≡ err e → next.payloads ≡ err e)
    → (after_line line other next).payloads ≡ err e
after_line_err line rest other more next h k = elim (Result-cases line.result) [
  | inl (e, thrown) ↦ rw thrown (rw thrown at h)
  | inr (found, result) ↦ elim (Bool-cases line.terminated) [
    | inl ended ↦ absurd (front_ended found _ refl (rw (result, ended) at h))
    | inr continues ↦
        rw (result, continues) (front_err found more next (rw (result, continues) at h) k)
  ]
]

module _ (json_parse : Text → Option Value) where
  pub drain_err :
      (line s t : Text) (m : ℕ) {e : RouterError}
      → (drain json_parse line s m).payloads ≡ err e
      → (drain json_parse line (s ++ t) m).payloads ≡ err e
  unfolding drain
  drain_err line [] t m h = cc h
  drain_err line (c ∷ s) t m h = elim (Bool-cases (c == newline)) [
    | inl end ↦
        let consumed = consume_line json_parse m line in
        rw (drain_line_end json_parse line (s ++ t) c m end) (
          after_line_err consumed s (s ++ t) _ _
            (rw (drain_line_end json_parse line s c m end) at h)
            (λ k. drain_err [] s t consumed.malformed k))
    | inr other ↦
        rw (drain_other json_parse line (s ++ t) c m other)
          (drain_err (line ++ (c ∷ [])) s t m (rw (drain_other json_parse line s c m other) at h))
  ]

pub check_line_bytes_err :
    (d : Drained) {e : RouterError} → d.payloads ≡ err e → check_line_bytes d ≡ err e
check_line_bytes_err d h = rw h refl

-- What the check after the loop gives: the loop's error, the line's, or the payloads.
pub check_line_bytes_cases :
    (d : Drained) (q : List Text)
    → d.payloads ≡ ok q
    → (check_line_bytes d ≡ err (router_error response_too_large "sse-line-bytes"))
      ⊎ (check_line_bytes d ≡ ok q)
check_line_bytes_cases d q h = elim (Bool-cases d.terminated) [
  | inl ended ↦ inr (rw (h, ended) refl)
  | inr continues ↦ elim (Bool-cases (ltb max_sse_line_bytes (byte_length d.buffer))) [
    | inl big ↦ inl (rw (h, continues, big) refl)
    | inr fits ↦ inr (rw (h, continues, fits) refl)
  ]
]

pub check_line_bytes_behind :
    (before : List Text) (d : Drained) {p : List Text}
    → check_line_bytes (prepend before d) ≡ ok p
    → (q : List Text) × (check_line_bytes d ≡ ok q)
check_line_bytes_behind before d h = elim (Result-cases d.payloads) [
  | inl (e, thrown) ↦ cc (rw thrown at h)
  | inr (q, given) ↦ elim (Bool-cases d.terminated) [
    | inl ended ↦ (q, rw (given, ended) refl)
    | inr continues ↦ elim (Bool-cases (ltb max_sse_line_bytes (byte_length d.buffer))) [
      | inl big ↦ cc (rw (given, continues, big) at h)
      | inr fits ↦ (q, rw (given, continues, fits) refl)
    ]
  ]
]
