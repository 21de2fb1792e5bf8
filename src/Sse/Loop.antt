-- ===== src/Sse/Loop.antt =====
-- packages/router/src/sse.ts: the loop of `push` over a buffer, one line at a time.
use Prim.Native.Nat.{ℕ}
use mathlib.Core.List.{append_assoc, append-nil}
use goatrouter.Common.{
  ◌⊎◌, ◌≡◌, refl, sym, ap, ◌∙◌, true, false, Option, none, some, List, [], ◌∷◌, ◌++◌, Text, any,
  ◌==◌, arith, inl, inr, Bool-cases,
}
use goatrouter.Errors.{Result, ok, err, ◌>>=◌, >>=-eq-ok}
use goatrouter.Value.{Value}
use goatrouter.Sse.{newline, Consumed, Drained, front, after_line, consume_line, drain}

pub Result-cases : {A : Type 0} (r : Result A) → ((e : _) × (r ≡ err e)) ⊎ ((a : A) × (r ≡ ok a))
Result-cases (err e) = inl (e, refl)
Result-cases (ok a) = inr (a, refl)

ok_inj : {A : Type 0} {a b : A} → ok a ≡ ok b → a ≡ b
ok_inj h = cc h

-- No newline in a text.
abbrev pub IsClean : Text → Type 0
IsClean s = any (λ c. c == newline) s ≡ false

IsClean-append : (s : Text) (c : ℕ) → IsClean s → (c == newline) ≡ false → IsClean (s ++ (c ∷ []))
IsClean-append [] c h k = ground arith
IsClean-append (d ∷ s) c h k = ground (arith, IsClean-append s c)

-- The payloads `before` in front of what the loop leaves.
abbrev pub prepend : List Text → Drained → Drained
prepend before d = record {
  payloads = d.payloads >>= (λ rest. ok (before ++ rest));
  buffer = d.buffer;
  malformed = d.malformed;
  terminated = d.terminated;
}

-- The payload of a line in front.
pub front_payloads :
    (found : Option Text) (more : Drained) {p : List Text}
    → (front found more).payloads ≡ ok p
    → (q : List Text) × (more.payloads ≡ ok q)
front_payloads none more h = (_, h)
front_payloads (some s) more h = let (q, e, _) = >>=-eq-ok more.payloads _ h in (q, e)

pub front-terminated :
    (found : Option Text) (more : Drained) → (front found more).terminated ≡ more.terminated
front-terminated none more = refl
front-terminated (some s) more = refl

pub front-buffer : (found : Option Text) (more : Drained) → (front found more).buffer ≡ more.buffer
front-buffer none more = refl
front-buffer (some s) more = refl

front-malformed :
    (found : Option Text) (more : Drained) → (front found more).malformed ≡ more.malformed
front-malformed none more = refl
front-malformed (some s) more = refl

-- A line after which the loop goes on.
pub record GoesOn (line : Consumed) (rest : Text) (more : Drained) : Type 0 where
  pub found : Option Text
  pub result : line.result ≡ ok found
  pub continues : line.terminated ≡ false
  pub next : after_line line rest more ≡ front found more

after_line-GoesOn :
    (line : Consumed) (rest : Text) (more : Drained) {p : List Text}
    → (after_line line rest more).payloads ≡ ok p
    → (after_line line rest more).terminated ≡ false
    → GoesOn line rest more
after_line-GoesOn line rest more h t = elim (Result-cases line.result) [
  | inl (e, thrown) ↦ cc (rw thrown at h)
  | inr (found, result) ↦ elim (Bool-cases line.terminated) [
    | inl ended ↦ cc (
      rw (result, ended) at t,
      front-terminated found (record {
        payloads = ok [];
        buffer = rest;
        malformed = line.malformed;
        terminated = true;
      }),
    )
    | inr continues ↦ record {
      found = found;
      result = result;
      continues = continues;
      next = rw (result, continues) refl;
    }
  ]
]

-- Two chains over one result whose continuations agree.
>>=-ext :
    {A : Type 0} (r : Result A) {f g : A → Result (List Text)}
    → ((a : A) → f a ≡ g a)
    → (r >>= f) ≡ (r >>= g)
>>=-ext (err e) h = refl
>>=-ext (ok a) h = h a

>>=-assoc :
    (r : Result (List Text)) (x : Text) (q : List Text)
    → ((r >>= (λ rest. ok (q ++ rest))) >>= (λ rest. ok (x ∷ rest)))
      ≡ (r >>= (λ rest. ok ((x ∷ q) ++ rest)))
>>=-assoc (err e) x q = refl
>>=-assoc (ok rest) x q = refl

>>=-ok : (r : Result (List Text)) → r ≡ (r >>= (λ rest. ok ([] ++ rest)))
>>=-ok (err e) = refl
>>=-ok (ok rest) = refl

abbrev with_payloads : Drained → Result (List Text) → Drained
with_payloads d payloads = record {
  payloads = payloads;
  buffer = d.buffer;
  malformed = d.malformed;
  terminated = d.terminated;
}

pub prepend_nil : (d : Drained) → d ≡ prepend [] d
prepend_nil d = ap (with_payloads d) (>>=-ok d.payloads)

pub front-prepend_text :
    (x : Text) (q : List Text) (d : Drained) → front (some x) (prepend q d) ≡ prepend (x ∷ q) d
front-prepend_text x q d = ap (with_payloads d) (>>=-assoc d.payloads x q)

front-prepend :
    (found : Option Text) (more d : Drained) {p q : List Text}
    → (front found more).payloads ≡ ok p
    → more.payloads ≡ ok q
    → front found (prepend q d) ≡ prepend p d
front-prepend none more d {p = p} {q = q} h k =
    let same : q ≡ p = cc (h, k) in ap (λ l. prepend l d) same
front-prepend (some x) more d {p = p} {q = q} h k =
    let same : (x ∷ q) ≡ p = ok_inj (rw k at h) in
    front-prepend_text x q d ∙ ap (λ l. prepend l d) same

module _ (json_parse : Text → Option Value) where
  pub drain_line_end :
      (line rest : Text) (c m : ℕ)
      → (c == newline) ≡ true
      → drain json_parse line (c ∷ rest) m
        ≡ after_line
            (consume_line json_parse m line)
            rest
            (drain json_parse [] rest (consume_line json_parse m line).malformed)
  unfolding drain
  drain_line_end line rest c m h = rw (h, drain) refl

  pub drain_other :
      (line rest : Text) (c m : ℕ)
      → (c == newline) ≡ false
      → drain json_parse line (c ∷ rest) m ≡ drain json_parse (line ++ (c ∷ [])) rest m
  unfolding drain
  drain_other line rest c m h = rw (h, drain) refl

  -- A loop that neither throws nor terminates leaves a buffer with no newline.
  pub drain-IsClean :
      (line s : Text) (m : ℕ) {p : List Text}
      → IsClean line
      → (drain json_parse line s m).payloads ≡ ok p
      → (drain json_parse line s m).terminated ≡ false
      → IsClean (drain json_parse line s m).buffer
  unfolding drain
  drain-IsClean line [] m clean h t = clean
  drain-IsClean line (c ∷ rest) m clean h t = elim (Bool-cases (c == newline)) [
    | inl end ↦
        let step = drain_line_end line rest c m end in
        let consumed = consume_line json_parse m line in
        let more = drain json_parse [] rest consumed.malformed in
        let g = after_line-GoesOn consumed rest more (rw step at h) (rw step at t) in
        let same = step ∙ g.next in
        let (q, delivered) = front_payloads g.found more (rw same at h) in
        let continues = sym (front-terminated g.found more) ∙ (rw same at t) in
        rw (same, front-buffer g.found more)
          (drain-IsClean [] rest consumed.malformed refl delivered continues)
    | inr other ↦
        let step = drain_other line rest c m other in
        rw step (
          drain-IsClean (line ++ (c ∷ [])) rest m (IsClean-append line c clean other) (rw step at h)
            (rw step at t))
  ]

  -- Text with no newline is only moved to the line that is read.
  pub drain_clean :
      (line b s : Text) (m : ℕ)
      → IsClean b
      → drain json_parse line (b ++ s) m ≡ drain json_parse (line ++ b) s m
  drain_clean line [] s m clean = ap (λ l. drain json_parse l s m) (sym (append-nil line))
  drain_clean line (c ∷ b) s m clean =
      let c_other : (c == newline) ≡ false = ground arith in
      let b_clean : IsClean b = ground arith in
      drain_other line (b ++ s) c m c_other
      ∙ drain_clean (line ++ (c ∷ [])) b s m b_clean
      ∙ ap (λ l. drain json_parse l s m) (append_assoc line (c ∷ []) b)

  -- A loop that reads up to a place and goes on there reads what one loop over all of it reads.
  pub drain-append :
      (line s t : Text) (m : ℕ) {p : List Text}
      → (drain json_parse line s m).payloads ≡ ok p
      → (drain json_parse line s m).terminated ≡ false
      → drain json_parse line (s ++ t) m
        ≡ prepend p (
            drain json_parse
              (drain json_parse line s m).buffer
              t
              (drain json_parse line s m).malformed)
  unfolding drain
  drain-append line [] t m {p = p} h e =
      let same : [] ≡ p = ok_inj h in rw (← same) (prepend_nil (drain json_parse line t m))
  drain-append line (c ∷ s) t m h e = elim (Bool-cases (c == newline)) [
    | inl end ↦
        let step = drain_line_end line s c m end in
        let consumed = consume_line json_parse m line in
        let more = drain json_parse [] s consumed.malformed in
        let g = after_line-GoesOn consumed s more (rw step at h) (rw step at e) in
        let same = step ∙ g.next in
        let (q, delivered) = front_payloads g.found more (rw same at h) in
        let continues = sym (front-terminated g.found more) ∙ (rw same at e) in
        let next = drain-append [] s t consumed.malformed delivered continues in
        drain_line_end line (s ++ t) c m end
        ∙ rw
            (
              g.result,
              g.continues,
              next,
              same,
              front-buffer g.found more,
              front-malformed g.found more,
            )
            (front-prepend g.found more _ (rw same at h) delivered)
    | inr other ↦
        let step = drain_other line s c m other in
        drain_other line (s ++ t) c m other
        ∙ (rw step (drain-append (line ++ (c ∷ [])) s t m (rw step at h) (rw step at e)))
  ]
