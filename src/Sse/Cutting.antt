-- ===== src/Sse/Cutting.antt =====
-- packages/router/src/sse.ts: how the reading of a stream depends on where it is cut into chunks.
use Prim.Native.Nat.{ℕ}
use mathlib.Core.List.{append_assoc, append-nil}
use goatrouter.Common.{
  ◌+◌, ◌≡◌, refl, sym, ap, ◌∙◌, false, Option, List, [], ◌∷◌, ◌++◌, Text, length, length-append,
  ◌==◌, arith,
}
use goatrouter.Errors.{Result, ok}
use goatrouter.Value.{Value}
use goatrouter.Sse.{
  Drained, Reader, TextDecoder, drain, check_line_bytes, settle_buffer, push, push_all,
}
use goatrouter.Sse.Loop.{prepend, drain-IsClean, drain_clean, drain-append}
use goatrouter.Sse.Accepted.{
  check_line_bytes-Checked, check_line_bytes-prepend, drained_of, ok_inj, push_all-First, settled,
  push_open, push_in_time, push-Accepted, push_empty,
}

-- What `stream: true` promises: a cut between two bytes changes nothing, and no bytes give no text.
pub record IsStreaming {D : Type 0} (td : TextDecoder D) : Type 0 where
  pub text :
      (d : D) (a b : List ℕ)
      → (td.decode d (a ++ b)).0 ≡ (td.decode d a).0 ++ (td.decode (td.decode d a).1 b).0
  pub empty : (d : D) → td.decode d [] ≡ ([], d)
  pub state : (d : D) (a b : List ℕ) → (td.decode d (a ++ b)).1 ≡ (td.decode (td.decode d a).1 b).1

-- The bytes of the chunks.
abbrev pub joined : List (List ℕ) → List ℕ
joined [] = []
joined (chunk ∷ chunks) = chunk ++ joined chunks

settle_buffer-prepend :
    {D : Type 0} (p : List Text) (d : Drained) (total : ℕ) (decoder : D) {q : List Text}
    → check_line_bytes d ≡ ok q
    → settle_buffer (prepend p d) total decoder ≡ (ok (p ++ q), (settle_buffer d total decoder).1)
settle_buffer-prepend p d total decoder h =
    ap (λ x. (x, (settle_buffer d total decoder).1)) (check_line_bytes-prepend p d h)

module _ {D : Type 0} (json_parse : Text → Option Value) (td : TextDecoder D)
    (streaming : IsStreaming td) where
  -- The loop over two chunks at once, when the first alone is accepted and does not terminate.
  pub drained_of-append :
      (r : Reader D) (a b : List ℕ) {p : List Text}
      → check_line_bytes (drained_of json_parse td r a) ≡ ok p
      → (drained_of json_parse td r a).terminated ≡ false
      → drained_of json_parse td r (a ++ b)
        ≡ prepend p (drained_of json_parse td (settled json_parse td r a) b)
  drained_of-append r a b {p = p} c t =
      let d = drained_of json_parse td r a in
      let ta = (td.decode r.decoder a).0 in
      let tb = (td.decode (td.decode r.decoder a).1 b).0 in
      let paid = (check_line_bytes-Checked d c).payloads in
      ap (λ s. drain json_parse [] s r.malformed)
        (ap (λ s. r.buffer ++ s) (streaming.text r.decoder a b) ∙ sym (append_assoc r.buffer ta tb))
      ∙ drain-append json_parse [] (r.buffer ++ ta) tb r.malformed paid t
      ∙ ap (prepend p) (
          sym (
            drain_clean json_parse [] d.buffer tb d.malformed
              (drain-IsClean json_parse [] (r.buffer ++ ta) r.malformed refl paid t)))

  -- Two chunks that are not empty, pushed one after the other or at once.
  push-append_full :
      (r : Reader D) (a b : List ℕ) {p q : List Text}
      → (length a == 0) ≡ false
      → (length b == 0) ≡ false
      → (push json_parse td r a).0 ≡ ok p
      → (push json_parse td (push json_parse td r a).1 b).0 ≡ ok q
      → push json_parse td r (a ++ b)
        ≡ (ok (p ++ q), (push json_parse td (push json_parse td r a).1 b).1)
  push-append_full r a b {p = p} {q = q} ea eb h k =
      let r1 = settled json_parse td r a in
      let first = push-Accepted json_parse td r a ea h in
      let reader : (push json_parse td r a).1 ≡ r1 = ap (λ x. x.1) first.after in
      let second = push-Accepted json_parse td r1 b eb (rw reader at k) in
      let one = drained_of-append r a b first.checked second.in_time in
      let long : (length (a ++ b) == 0) ≡ false = ground (arith, length-append a b) in
      let total : r.total_bytes + length (a ++ b) ≡ r1.total_bytes + length b =
        omega (arith, length-append a b) in
      let next = drained_of json_parse td r1 b in
      let state = streaming.state r.decoder a b in
      let decoded = (td.decode r.decoder (a ++ b)).1 in
      let with : Reader D → Result (List Text) × Reader D = λ x. (ok (p ++ q), x) in
      push_open json_parse td r (a ++ b) first.in_time long (omega (arith, total, second.fits))
      ∙ ap (λ d. settle_buffer d (r.total_bytes + length (a ++ b)) decoded) one
      ∙ settle_buffer-prepend p next (r.total_bytes + length (a ++ b)) decoded second.checked
      ∙ ap (λ n. with (settle_buffer next n decoded).1) total
      ∙ ap (λ d. with (settle_buffer next (r1.total_bytes + length b) d).1) state
      ∙ sym (ap (λ x. with (push json_parse td x b).1) reader ∙ ap (λ x. with x.1) second.after)

  -- The same for any two chunks.
  pub push-append :
      (r : Reader D) (a b : List ℕ) {p q : List Text}
      → (push json_parse td r a).0 ≡ ok p
      → (push json_parse td (push json_parse td r a).1 b).0 ≡ ok q
      → push json_parse td r (a ++ b)
        ≡ (ok (p ++ q), (push json_parse td (push json_parse td r a).1 b).1)
  push-append r [] b {p = p} {q = q} h k =
      let e = push_empty json_parse td r [] (push_in_time json_parse td r [] h) refl in
      let none_yet : [] ≡ p = ok_inj (rw e at h) in
      rw (e, ← none_yet) (ap (λ x. (x, (push json_parse td r b).1)) (rw e at k))
  push-append r (x ∷ a) [] {p = p} {q = q} h k =
      let r1 = (push json_parse td r (x ∷ a)).1 in
      let e = push_empty json_parse td r1 [] (push_in_time json_parse td r1 [] k) refl in
      let none_more : [] ≡ q = ok_inj (rw e at k) in
      rw (append-nil (x ∷ a), ← none_more, append-nil p, e) (ap (λ y. (y, r1)) h)
  push-append r (x ∷ a) (y ∷ b) h k =
      push-append_full r (x ∷ a) (y ∷ b) (ground arith) (ground arith) h k

  -- With a decoder for which a cut changes nothing and a reader that has not ended, a stream that is
  -- accepted chunk by chunk gives, pushed as one chunk, the same payloads in the same order and
  -- leaves the same reader.
  pub push_all-joined :
      (r : Reader D) (chunks : List (List ℕ)) {p : List Text}
      → r.terminated ≡ false
      → (push_all json_parse td r chunks).0 ≡ ok p
      → push json_parse td r (joined chunks) ≡ (ok p, (push_all json_parse td r chunks).1)
  unfolding push_all
  push_all-joined r [] {p = p} t h = push_empty json_parse td r [] t refl ∙ ap (λ x. (x, r)) h
  push_all-joined r (chunk ∷ []) {p = p} t h =
      let f = push_all-First json_parse td r chunk [] h in
      let nothing : [] ≡ f.others = ok_inj f.rest in
      let same : f.delivered ≡ p =
        sym (append-nil f.delivered) ∙ ap (λ l. f.delivered ++ l) nothing ∙ sym f.all_of in
      let r1 = (push json_parse td r chunk).1 in
      rw (append-nil chunk, f.reader, ← same) (ap (λ x. (x, r1)) f.pushed)
  push_all-joined r (chunk ∷ next ∷ chunks) {p = p} t h =
      let f = push_all-First json_parse td r chunk (next ∷ chunks) h in
      let r1 = (push json_parse td r chunk).1 in
      let g = push_all-First json_parse td r1 next chunks f.rest in
      let open1 = push_in_time json_parse td r1 next g.pushed in
      let ih = push_all-joined r1 (next ∷ chunks) open1 f.rest in
      rw (f.reader, f.all_of, ← ap (λ x. x.1) ih)
        (push-append r chunk (joined (next ∷ chunks)) f.pushed (ap (λ x. x.0) ih))
