-- ===== src/Semaphore/Invariant.antt =====
-- packages/router/src/concurrency.ts: what holds of the semaphore between two turns.
use goatrouter.Common.{
  ℕ, suc, ◌-◌, ◌≤◌, ◌≡◌, refl, inl, inr, Bool, true, false, not, ◌&&◌, Option, none, some, List, [],
  ◌∷◌, ◌++◌, arith, leb, ltb, length-append, get_elem?, Bool-cases, Option-cases,
}
use mathlib.Core.List.{append_assoc, append-nil}
use goatrouter.Errors.{ok}
use goatrouter.Semaphore.{
  Outcome, Semaphore, create_semaphore, contains, grant, release, enqueue, has_fired, is_given,
  acquire, on_abort, abort, captured, detach, Event, acquires, releases, aborts, step, run,
}
use goatrouter.Semaphore.Pumping.{Inv, contains-snoc, contains_later, queued_of_idle, pump-Inv}
use goatrouter.Semaphore.Chains.{
  Chain, Chain-le, Chain-raise, Chain-snoc, queued, queued-append, length-queued-set, Chain-vacate,
  mark, unreleased-mark, unreleased-append,
}

mark_unused :
    (flag : ℕ → Bool) (c k : ℕ) (served : List ℕ)
    → contains c served ≡ true
    → contains k served ≡ false
    → flag k ≡ false
    → mark flag c k ≡ false
mark_unused flag c k served known unknown unset = ground arith

-- The callers served are a chain of their own.
Chain-front : (lo hi : ℕ) (xs ys : List ℕ) → Chain lo (xs ++ ys) hi → Chain lo xs hi
Chain-front lo hi [] ys h = Chain-le lo ys hi h
Chain-front lo hi (x ∷ xs) ys h = (h.0, Chain-front (suc x) hi xs ys h.1)

module _ (limit queue_limit : ℕ) where
  release-Inv :
      (s : Semaphore) (c : ℕ)
      → Inv limit queue_limit s
      → (t : Semaphore) × (release s c ≡ some t) × Inv limit queue_limit t
  unfolding release
  release-Inv s c v = elim (Bool-cases (contains c s.served && not (s.released c))) [
    | inr other ↦ (s, rw (other, release) refl, v)
    | inl held ↦
        let known : contains c s.served ≡ true = ground arith in
        let (t, e, w) =
          pump-Inv limit queue_limit
            (record s { in_flight = s.in_flight - 1; released = mark s.released c })
            (record {
              same_limit = v.loop.same_limit;
              same_queue_limit = v.loop.same_queue_limit;
              counted = v.loop.counted;
              permits = omega (
                arith,
                v.loop.permits,
                unreleased-mark s.released c 0 s.next_caller s.served
                    (Chain-front 0 s.next_caller s.served (queued s.waiters) v.loop.in_order) known
                    (ground arith),
              );
              capped = omega (arith, v.loop.capped);
              bounded = v.loop.bounded;
              in_order = v.loop.in_order;
              unused = λ k h. mark_unused s.released c k s.served known h (v.loop.unused k h);
            }) in
        (t, rw (held, release) e, w)
  ]

  -- A caller that is refused at once takes a number and nothing else.
  passed-Inv :
      (s : Semaphore) (outcomes : ℕ → Option Outcome)
      → Inv limit queue_limit s
      → Inv limit queue_limit (record s { next_caller = suc s.next_caller; outcomes = outcomes })
  passed-Inv s outcomes v = record {
    loop = record {
      same_limit = v.loop.same_limit;
      same_queue_limit = v.loop.same_queue_limit;
      counted = v.loop.counted;
      permits = v.loop.permits;
      capped = v.loop.capped;
      bounded = v.loop.bounded;
      in_order = Chain-raise 0 (s.served ++ queued s.waiters) s.next_caller v.loop.in_order;
      unused = v.loop.unused;
    };
    busy = v.busy;
  }

  served-Inv :
      (s : Semaphore)
      → ltb s.in_flight s.limit ≡ true
      → Inv limit queue_limit s
      → Inv limit queue_limit (grant (record s { next_caller = suc s.next_caller }) s.next_caller)
  served-Inv s free v =
      let idle : queued s.waiters ≡ [] =
        queued_of_idle s.waiters (ground (arith, v.busy, v.loop.counted, v.loop.same_limit)) in
      let alone : Chain 0 s.served s.next_caller =
        Chain-front 0 s.next_caller s.served (queued s.waiters) v.loop.in_order in
      let snoc = Chain-snoc 0 s.served s.next_caller alone in
      record {
        loop = record {
          same_limit = v.loop.same_limit;
          same_queue_limit = v.loop.same_queue_limit;
          counted = v.loop.counted;
          permits = omega (
            arith,
            v.loop.permits,
            unreleased-append s.released s.served s.next_caller (
                v.loop.unused s.next_caller
                  (contains_later s.next_caller 0 (suc s.next_caller) s.served [] snoc).1),
          );
          capped = ground (arith, v.loop.same_limit);
          bounded = v.loop.bounded;
          in_order = rw (idle, append-nil) snoc;
          unused = λ k h. v.loop.unused k (contains-snoc k s.next_caller s.served h);
        };
        busy = λ h. ground (arith, v.busy h, v.loop.same_limit);
      }

  enqueue-Inv :
      (s : Semaphore) (listens : Bool)
      → ltb s.in_flight s.limit ≡ false
      → leb s.queue_limit s.live ≡ false
      → Inv limit queue_limit s
      → Inv limit queue_limit
          (enqueue (record s { next_caller = suc s.next_caller }) s.next_caller listens)
  unfolding enqueue
  enqueue-Inv s listens taken room v = record {
    loop = record {
      same_limit = v.loop.same_limit;
      same_queue_limit = v.loop.same_queue_limit;
      counted =
          rw (queued-append s.waiters s.next_caller)
            (omega (arith, v.loop.counted, length-append (queued s.waiters) (s.next_caller ∷ [])));
      permits = v.loop.permits;
      capped = v.loop.capped;
      bounded = ground (arith, v.loop.same_queue_limit);
      in_order =
          rw (queued-append s.waiters s.next_caller, ← append_assoc)
            (Chain-snoc 0 (s.served ++ queued s.waiters) s.next_caller v.loop.in_order);
      unused = v.loop.unused;
    };
    busy = λ h. ground (arith, v.loop.capped, v.loop.same_limit);
  }

  acquire-Inv :
      (s : Semaphore) (signal : Option Bool)
      → Inv limit queue_limit s
      → Inv limit queue_limit (acquire s signal)
  unfolding acquire
  acquire-Inv s signal v = elim (Bool-cases (has_fired signal)) [
    | inl fired ↦ rw fired (passed-Inv s _ v)
    | inr quiet ↦ elim (Bool-cases (ltb s.in_flight s.limit)) [
      | inl free ↦ rw (quiet, free) (served-Inv s free v)
      | inr taken ↦ elim (Bool-cases (leb s.queue_limit s.live)) [
        | inl full ↦ rw (quiet, taken, full) (passed-Inv s _ v)
        | inr room ↦ rw (quiet, taken, room) (enqueue-Inv s (is_given signal) taken room v)
      ]
    ]
  ]

  on_abort-Inv :
      (s : Semaphore) (c i : ℕ) → Inv limit queue_limit s → Inv limit queue_limit (on_abort s c i)
  unfolding on_abort
  on_abort-Inv s c i v = elim (Option-cases (get_elem? s.waiters i)) [
    | inl beyond ↦ rw (beyond, on_abort) v
    | inr (none, vacant) ↦ rw (vacant, on_abort) v
    | inr (some waiting, occupied) ↦
        let fewer = length-queued-set s.waiters i waiting occupied in
        rw (occupied, on_abort)
          (record {
            loop = record {
              same_limit = v.loop.same_limit;
              same_queue_limit = v.loop.same_queue_limit;
              counted = omega (arith, v.loop.counted, fewer);
              permits = v.loop.permits;
              capped = v.loop.capped;
              bounded = omega (arith, v.loop.bounded);
              in_order = Chain-vacate s.served s.waiters i 0 s.next_caller v.loop.in_order;
              unused = v.loop.unused;
            };
            busy = λ h. v.busy (omega arith);
          })
  ]

  deafen-Inv :
      (s : Semaphore) (listeners : List (ℕ × ℕ))
      → Inv limit queue_limit s
      → Inv limit queue_limit (record s { listeners = listeners })
  deafen-Inv s listeners v = record {
    loop = record {
      same_limit = v.loop.same_limit;
      same_queue_limit = v.loop.same_queue_limit;
      counted = v.loop.counted;
      permits = v.loop.permits;
      capped = v.loop.capped;
      bounded = v.loop.bounded;
      in_order = v.loop.in_order;
      unused = v.loop.unused;
    };
    busy = v.busy;
  }

  abort-Inv : (s : Semaphore) (c : ℕ) → Inv limit queue_limit s → Inv limit queue_limit (abort s c)
  unfolding abort
  abort-Inv s c v = elim (Option-cases (captured c s.listeners)) [
    | inl deaf ↦ rw (deaf, abort) v
    | inr (i, listening) ↦
        rw (listening, abort)
          (on_abort-Inv (record s { listeners = detach c s.listeners }) c i
            (deafen-Inv s (detach c s.listeners) v))
  ]

  step-Inv :
      (s : Semaphore) (e : Event)
      → Inv limit queue_limit s
      → (t : Semaphore) × (step s e ≡ some t) × Inv limit queue_limit t
  unfolding step
  step-Inv s (acquires signal) v = (acquire s signal, refl, acquire-Inv s signal v)
  step-Inv s (releases c) v = release-Inv s c v
  step-Inv s (aborts c) v = (abort s c, refl, abort-Inv s c v)

  -- From a semaphore in order, every sequence of events ends, `pump` included, with one in order.
  pub run-Inv :
      (s : Semaphore) (es : List Event)
      → Inv limit queue_limit s
      → (t : Semaphore) × (run s es ≡ some t) × Inv limit queue_limit t
  unfolding run
  run-Inv s [] v = (s, refl, v)
  run-Inv s (e ∷ es) v =
      let (t, stepped, w) = step-Inv s e v in
      let (u, ran, x) = run-Inv t es w in (u, rw (stepped, run) ran, x)

-- What `createSemaphore` returns is in order, with the limits asked for or their defaults.
create-Inv :
    (limit queue_limit : Option ℕ) (s : Semaphore)
    → create_semaphore limit queue_limit ≡ ok s
    → Inv s.limit s.queue_limit s × (1 ≤ s.limit) × (s.limit ≤ 512)
unfolding create_semaphore
create-Inv limit queue_limit s e = ground arith

-- Whatever sequence of acquires, releases and aborts follows the creation of a semaphore, the loop
-- of `pump` always ends, and afterwards the live count is that of the occupied slots, the permits
-- in flight are the release closures not yet used and at most the limit, the callers queued are at
-- most the queue limit, callers were served and are queued in order of arrival and each once, and
-- nobody is queued while a permit is free.
pub run_create-Inv :
    (limit queue_limit : Option ℕ) (s : Semaphore) (es : List Event)
    → create_semaphore limit queue_limit ≡ ok s
    → (t : Semaphore) × (run s es ≡ some t) × Inv s.limit s.queue_limit t
run_create-Inv limit queue_limit s es e =
    run-Inv s.limit s.queue_limit s es (create-Inv limit queue_limit s e).0
