-- ===== src/Sse/Accepted.antt =====
-- packages/router/src/sse.ts: the chunks that `push` accepts.
use Prim.Native.Nat.{ℕ}
use goatrouter.Common.{
  ◌+◌, ◌≤◌, ◌≡◌, refl, sym, ◌∙◌, true, false, not, ◌||◌, Option, List, [], ◌∷◌, ◌++◌, Text, length,
  ltb, ◌==◌, arith, inl, inr, Bool-cases,
}
use goatrouter.Errors.{ok, >>=-eq-ok}
use goatrouter.Value.{Value, byte_length}
use goatrouter.Sse.{
  max_sse_line_bytes, max_sse_total_bytes, Drained, Reader, TextDecoder, drain, check_line_bytes,
  settle_buffer, push, push_all,
}
use goatrouter.Sse.Loop.{Result-cases, prepend}

pub ok_inj : {A : Type 0} {a b : A} → ok a ≡ ok b → a ≡ b
ok_inj h = cc h

-- What the check after the loop passes on.
pub record Checked (d : Drained) (p : List Text) : Type 0 where
  pub payloads : d.payloads ≡ ok p
  pub small : (d.terminated || not (ltb max_sse_line_bytes (byte_length d.buffer))) ≡ true

pub check_line_bytes-Checked :
    (d : Drained) {p : List Text} → check_line_bytes d ≡ ok p → Checked d p
check_line_bytes-Checked d h =
    let (q, e, k) = >>=-eq-ok d.payloads _ h in
    elim (Bool-cases d.terminated) [
      | inl ended ↦ record { payloads = e ∙ (rw ended at k); small = rw ended refl }
      | inr continues ↦ elim (Bool-cases (ltb max_sse_line_bytes (byte_length d.buffer))) [
        | inl big ↦ cc (rw (continues, big) at k)
        | inr fits ↦ record {
          payloads = e ∙ (rw (continues, fits) at k);
          small = rw (continues, fits) refl;
        }
      ]
    ]

pub check_line_bytes-prepend :
    (p : List Text) (d : Drained) {q : List Text}
    → check_line_bytes d ≡ ok q
    → check_line_bytes (prepend p d) ≡ ok (p ++ q)
check_line_bytes-prepend p d {q = q} h =
    let c = check_line_bytes-Checked d h in
    elim (Bool-cases d.terminated) [
      | inl ended ↦ rw (c.payloads, ended) refl
      | inr continues ↦
          let small : ltb max_sse_line_bytes (byte_length d.buffer) ≡ false =
            ground (arith, c.small) in
          rw (c.payloads, continues, small) refl
    ]

module _ {D : Type 0} (json_parse : Text → Option Value) (td : TextDecoder D) where
  -- What the loop leaves after a chunk is decoded.
  abbrev pub drained_of : Reader D → List ℕ → Drained
  drained_of r chunk = drain json_parse [] (r.buffer ++ (td.decode r.decoder chunk).0) r.malformed

  -- The reader after the loop.
  abbrev pub settled : Reader D → List ℕ → Reader D
  settled r chunk =
      (settle_buffer (drained_of r chunk) (r.total_bytes + length chunk)
        (td.decode r.decoder chunk).1).1

  -- A chunk that is accepted, and is not empty.
  pub record Accepted (r : Reader D) (chunk : List ℕ) (p : List Text) : Type 0 where
    pub in_time : r.terminated ≡ false
    pub fits : r.total_bytes + length chunk ≤ max_sse_total_bytes
    pub checked : check_line_bytes (drained_of r chunk) ≡ ok p
    pub after :
        push json_parse td r chunk
        ≡ settle_buffer
            (drained_of r chunk)
            (r.total_bytes + length chunk)
            (td.decode r.decoder chunk).1

  pub push_open :
      (r : Reader D) (chunk : List ℕ)
      → r.terminated ≡ false
      → (length chunk == 0) ≡ false
      → r.total_bytes + length chunk ≤ max_sse_total_bytes
      → push json_parse td r chunk
        ≡ settle_buffer
            (drained_of r chunk)
            (r.total_bytes + length chunk)
            (td.decode r.decoder chunk).1
  unfolding push
  push_open r chunk t e f =
      let g : ltb max_sse_total_bytes (r.total_bytes + length chunk) ≡ false = ground arith in
      rw (t, e, g) refl

  pub push_in_time :
      (r : Reader D) (chunk : List ℕ) {p : List Text}
      → (push json_parse td r chunk).0 ≡ ok p
      → r.terminated ≡ false
  unfolding push
  push_in_time r chunk h = elim (Bool-cases r.terminated) [
    | inl ended ↦ cc (rw ended at h)
    | inr continues ↦ continues
  ]

  pub push-Accepted :
      (r : Reader D) (chunk : List ℕ) {p : List Text}
      → (length chunk == 0) ≡ false
      → (push json_parse td r chunk).0 ≡ ok p
      → Accepted r chunk p
  unfolding push
  push-Accepted r chunk e h =
      let t = push_in_time r chunk h in
      elim (Bool-cases (ltb max_sse_total_bytes (r.total_bytes + length chunk))) [
        | inl big ↦ cc (rw (t, e, big) at h)
        | inr fits ↦
            let within : r.total_bytes + length chunk ≤ max_sse_total_bytes = ground arith in
            record {
              in_time = t;
              fits = within;
              checked = rw (t, e, fits) at h;
              after = push_open r chunk t e within;
            }
      ]

  pub push_empty :
      (r : Reader D) (chunk : List ℕ)
      → r.terminated ≡ false
      → (length chunk == 0) ≡ true
      → push json_parse td r chunk ≡ (ok [], r)
  unfolding push
  push_empty r chunk t e = rw (t, e) refl

  -- The first chunk of a stream that is accepted, and the others.
  pub record First (r : Reader D) (chunk : List ℕ) (chunks : List (List ℕ)) (p : List Text)
      : Type 0 where
    pub delivered : List Text
    pub others : List Text
    pub pushed : (push json_parse td r chunk).0 ≡ ok delivered
    pub rest : (push_all json_parse td (push json_parse td r chunk).1 chunks).0 ≡ ok others
    pub all_of : p ≡ delivered ++ others
    pub reader :
        (push_all json_parse td r (chunk ∷ chunks)).1
        ≡ (push_all json_parse td (push json_parse td r chunk).1 chunks).1

  pub push_all-First :
      (r : Reader D) (chunk : List ℕ) (chunks : List (List ℕ)) {p : List Text}
      → (push_all json_parse td r (chunk ∷ chunks)).0 ≡ ok p
      → First r chunk chunks p
  unfolding push_all
  push_all-First r chunk chunks h = elim (Result-cases (push json_parse td r chunk).0) [
    | inl (e, thrown) ↦ cc (rw (thrown, push_all) at h)
    | inr (delivered, pushed) ↦
        let (others, rest, same) =
          >>=-eq-ok (push_all json_parse td (push json_parse td r chunk).1 chunks).0 _
            (rw (pushed, push_all) at h) in
        record {
          delivered = delivered;
          others = others;
          pushed = pushed;
          rest = rest;
          all_of = sym (ok_inj same);
          reader = rw (pushed, push_all) refl;
        }
  ]
