-- ===== src/Sse/Recut.antt =====
-- packages/router/src/sse.ts: a stream that is accepted at once, pushed in chunks.
use Prim.Native.Nat.{ℕ}
use mathlib.Core.List.{append_assoc, append-nil}
use goatrouter.Common.{
  ◌+◌, ◌≤◌, ◌⊎◌, ◌≡◌, refl, sym, ap, ◌∙◌, true, false, Option, List, [], ◌∷◌, ◌++◌, Text, length,
  length-append, ◌==◌, arith, inl, inr, Bool-cases,
}
use goatrouter.Errors.{Result, ok, err, router_error, invalid_response, response_too_large}
use goatrouter.Value.{Value}
use goatrouter.Sse.{
  max_sse_total_bytes, Reader, TextDecoder, drain, check_line_bytes, push, push_all,
}
use goatrouter.Sse.Loop.{Result-cases}
use goatrouter.Sse.Accepted.{
  drained_of, settled, ok_inj, push_open, push_in_time, push-Accepted, push_empty,
}
use goatrouter.Sse.Cutting.{IsStreaming, joined, drained_of-append, push-append}
use goatrouter.Sse.Throws.{
  drain_err, check_line_bytes_err, check_line_bytes_cases, check_line_bytes_behind,
}

-- The chunks are refused, for one that comes after the end marker or for a line that is too long.
abbrev pub IsCut : Result (List Text) → Type 0
IsCut result =
    (result ≡ err (router_error invalid_response "sse-after-done"))
    ⊎ (result ≡ err (router_error response_too_large "sse-line-bytes"))

-- The payloads and the reader that are given, or one of those refusals.
abbrev pub IsRecut : {D : Type 0} → Result (List Text) × Reader D → List Text → Reader D → Type 0
IsRecut run p after = (run ≡ (ok p, after)) ⊎ IsCut run.0

module _ {D : Type 0} (json_parse : Text → Option Value) (td : TextDecoder D)
    (streaming : IsStreaming td) where
  -- A first chunk, of bytes that are accepted at once, is accepted itself unless its line is too long.
  push_first :
      (r : Reader D) (a b : List ℕ) {p : List Text}
      → (length a == 0) ≡ false
      → (push json_parse td r (a ++ b)).0 ≡ ok p
      → ((push json_parse td r a).0 ≡ err (router_error response_too_large "sse-line-bytes"))
        ⊎ ((q : List Text) × ((push json_parse td r a).0 ≡ ok q))
  push_first r a b {p = p} ea h =
      let long : (length (a ++ b) == 0) ≡ false = ground (arith, length-append a b) in
      let whole = push-Accepted json_parse td r (a ++ b) long h in
      let d = drained_of json_parse td r a in
      let opened : (push json_parse td r a).0 ≡ check_line_bytes d =
        ap (λ x. x.0)
          (push_open json_parse td r a whole.in_time ea
            (omega (arith, whole.fits, length-append a b))) in
      elim (Result-cases d.payloads) [
        | inl (e, thrown) ↦
            let ta = (td.decode r.decoder a).0 in
            let tb = (td.decode (td.decode r.decoder a).1 b).0 in
            let after = drain_err json_parse [] (r.buffer ++ ta) tb r.malformed thrown in
            let text : (r.buffer ++ ta) ++ tb ≡ r.buffer ++ (td.decode r.decoder (a ++ b)).0 =
              append_assoc r.buffer ta tb
              ∙ sym (ap (λ s. r.buffer ++ s) (streaming.text r.decoder a b)) in
            let same = ap (λ s. (drain json_parse [] s r.malformed).payloads) (sym text) ∙ after in
            cc (check_line_bytes_err (drained_of json_parse td r (a ++ b)) same, whole.checked)
        | inr (q, given) ↦ elim (check_line_bytes_cases d q given) [
          | inl big ↦ inl (opened ∙ big)
          | inr fits ↦ inr (q, opened ∙ fits)
        ]
      ]

  -- And what is behind it is accepted too, if it does not end the stream.
  push_second :
      (r : Reader D) (a b : List ℕ) {p q : List Text}
      → (length a == 0) ≡ false
      → (push json_parse td r (a ++ b)).0 ≡ ok p
      → (push json_parse td r a).0 ≡ ok q
      → (push json_parse td r a).1.terminated ≡ false
      → (l : List Text) × ((push json_parse td (push json_parse td r a).1 b).0 ≡ ok l)
  push_second r a [] {q = q} ea h k t =
      ([], ap (λ x. x.0) (push_empty json_parse td (push json_parse td r a).1 [] t refl))
  push_second r a (y ∷ b) {q = q} ea h k t =
      let r1 = settled json_parse td r a in
      let long : (length (a ++ (y ∷ b)) == 0) ≡ false = ground (arith, length-append a (y ∷ b)) in
      let whole = push-Accepted json_parse td r (a ++ (y ∷ b)) long h in
      let first = push-Accepted json_parse td r a ea k in
      let reader : (push json_parse td r a).1 ≡ r1 = ap (λ x. x.1) first.after in
      let opened : r1.terminated ≡ false = rw reader at t in
      let one = drained_of-append json_parse td streaming r a (y ∷ b) first.checked opened in
      let (l, checked) =
        check_line_bytes_behind q (drained_of json_parse td r1 (y ∷ b)) (rw one at whole.checked) in
      let fits : r1.total_bytes + length (y ∷ b) ≤ max_sse_total_bytes =
        omega (arith, whole.fits, length-append a (y ∷ b)) in
      (
        l,
        rw reader (
            ap (λ x. x.0) (push_open json_parse td r1 (y ∷ b) opened (ground arith) fits)
            ∙ checked),
      )

  push_all-IsCut :
      (r : Reader D) (chunk : List ℕ) (chunks : List (List ℕ)) {q : List Text}
      → (push json_parse td r chunk).0 ≡ ok q
      → IsCut (push_all json_parse td (push json_parse td r chunk).1 chunks).0
      → IsCut (push_all json_parse td r (chunk ∷ chunks)).0
  unfolding push_all
  push_all-IsCut r chunk chunks given (inl late) = inl (rw (given, push_all, late) refl)
  push_all-IsCut r chunk chunks given (inr long) = inr (rw (given, push_all, long) refl)

  push_all_step :
      (r : Reader D) (chunk : List ℕ) (chunks : List (List ℕ)) {q l : List Text} {after : Reader D}
      → (push json_parse td r chunk).0 ≡ ok q
      → IsRecut (push_all json_parse td (push json_parse td r chunk).1 chunks) l after
      → IsRecut (push_all json_parse td r (chunk ∷ chunks)) (q ++ l) after
  unfolding push_all
  push_all_step r chunk chunks given (inl same) = inl (rw (given, push_all, same) refl)
  push_all_step r chunk chunks given (inr cut) = inr (push_all-IsCut r chunk chunks given cut)

  push_all_long :
      (r : Reader D) (chunk : List ℕ) (chunks : List (List ℕ))
      → (push json_parse td r chunk).0 ≡ err (router_error response_too_large "sse-line-bytes")
      → IsCut (push_all json_parse td r (chunk ∷ chunks)).0
  unfolding push_all
  push_all_long r chunk chunks long = inr (rw (long, push_all) refl)

  push_all_late :
      (r : Reader D) (chunk : List ℕ) (chunks : List (List ℕ))
      → r.terminated ≡ true
      → IsCut (push_all json_parse td r (chunk ∷ chunks)).0
  unfolding push_all push
  push_all_late r chunk chunks ended = inl (rw (push_all, push, ended) refl)

  -- A chunk that ends the stream is the last, or the next one is refused.
  push_all_ended :
      (r : Reader D) (chunk : List ℕ) (chunks : List (List ℕ)) {p q : List Text} {after : Reader D}
      → push json_parse td r (joined (chunk ∷ chunks)) ≡ (ok p, after)
      → (push json_parse td r chunk).0 ≡ ok q
      → (push json_parse td r chunk).1.terminated ≡ true
      → IsRecut (push_all json_parse td r (chunk ∷ chunks)) p after
  unfolding push_all
  push_all_ended r chunk [] {p = p} h given ended =
      let whole = rw (append-nil chunk) at h in
      inl (rw (push_all, ap (λ x. x.0) whole, append-nil p) (ap (λ x. (ok p, x.1)) whole))
  push_all_ended r chunk (next ∷ chunks) h given ended = inr (
      push_all-IsCut r chunk (next ∷ chunks) given
        (push_all_late (push json_parse td r chunk).1 next chunks ended))

  -- With a decoder for which a cut changes nothing, if the bytes of the chunks are accepted as one
  -- chunk, then the chunks one after the other give the same payloads in the same order and leave the
  -- same reader, or they are refused, with `sse-after-done` or with `sse-line-bytes`.
  pub push_all-IsRecut :
      (r : Reader D) (chunks : List (List ℕ)) (p : List Text) (after : Reader D)
      → push json_parse td r (joined chunks) ≡ (ok p, after)
      → IsRecut (push_all json_parse td r chunks) p after
  unfolding push_all
  push_all-IsRecut r [] p after h =
      let t = push_in_time json_parse td r [] (ap (λ x. x.0) h) in
      inl (sym (push_empty json_parse td r [] t refl) ∙ h)
  push_all-IsRecut r ([] ∷ chunks) p after h =
      let t = push_in_time json_parse td r (joined chunks) (ap (λ x. x.0) h) in
      let same = push_empty json_parse td r [] t refl in
      push_all_step r [] chunks (ap (λ x. x.0) same) (rw same (push_all-IsRecut r chunks p after h))
  push_all-IsRecut r ((x ∷ a) ∷ chunks) p after h =
      elim (push_first r (x ∷ a) (joined chunks) (ground arith) (ap (λ x. x.0) h)) [
        | inl long ↦ inr (push_all_long r (x ∷ a) chunks long)
        | inr (q, given) ↦ elim (Bool-cases (push json_parse td r (x ∷ a)).1.terminated) [
          | inl ended ↦ push_all_ended r (x ∷ a) chunks h given ended
          | inr continues ↦
              let r1 = (push json_parse td r (x ∷ a)).1 in
              let (l, behind) =
                push_second r (x ∷ a) (joined chunks) (ground arith) (ap (λ x. x.0) h) given
                  continues in
              let last = (push json_parse td r1 (joined chunks)).1 in
              let whole =
                sym (push-append json_parse td streaming r (x ∷ a) (joined chunks) given behind)
                ∙ h in
              rw (← ok_inj (ap (λ x. x.0) whole), ← ap (λ x. x.1) whole)
                (push_all_step r (x ∷ a) chunks given
                  (push_all-IsRecut r1 chunks l last (ap (λ y. (y, last)) behind)))
        ]
      ]
