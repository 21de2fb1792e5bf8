-- ===== src/Semaphore/Gone.antt =====
-- packages/router/src/concurrency.ts: a caller that is out of the queue with no permit stays so.
use goatrouter.Common.{
  ℕ, zero, suc, ◌<◌, ◌≡◌, ◌≢◌, refl, inl, inr, Bool, false, not, ◌&&◌, Option, none, some, List, [],
  ◌∷◌, ◌++◌, arith, ◌==◌, leb, ltb, get_elem?, set, Bool-cases, Option-cases,
}
use goatrouter.Semaphore.{
  Outcome, granted, aborted, queue_full, Semaphore, contains, hand_over, may_pump, pump_loop,
  compact, pump, release, has_fired, acquire, on_abort, abort, captured, detach, settle, Event,
  acquires, releases, aborts, step, run,
}
use goatrouter.Semaphore.Chains.{queued, queued-append}

-- A caller that has its number, stands in none of the slots, and was not given a permit.
pub record Gone (c : ℕ) (s : Semaphore) (slots : List (Option ℕ)) : Type 0 where
  pub numbered : c < s.next_caller
  pub absent : contains c (queued slots) ≡ false
  pub unserved : s.outcomes c ≢ some granted

settle_other :
    (outcomes : ℕ → Option Outcome) (c d : ℕ) (o : Outcome)
    → d ≢ c
    → settle outcomes d o c ≡ outcomes c
unfolding settle
settle_other outcomes c d o h = ground arith

settle_aborted :
    (outcomes : ℕ → Option Outcome) (c d : ℕ)
    → outcomes c ≢ some granted
    → settle outcomes d aborted c ≢ some granted
unfolding settle
settle_aborted outcomes c d h = ground arith

not_contains-vacate :
    (c : ℕ) (ws : List (Option ℕ)) (i : ℕ)
    → contains c (queued ws) ≡ false
    → contains c (queued (set ws i none)) ≡ false
unfolding contains
not_contains-vacate c [] i h = h
not_contains-vacate c (none ∷ ws) zero h = h
not_contains-vacate c (some d ∷ ws) zero h = ground arith
not_contains-vacate c (none ∷ ws) (suc i) h = not_contains-vacate c ws i h
not_contains-vacate c (some d ∷ ws) (suc i) h = ground (arith, not_contains-vacate c ws i)

contains-snoc_ne :
    (c d : ℕ) (xs : List ℕ) → d ≢ c → contains c xs ≡ false → contains c (xs ++ d ∷ []) ≡ false
unfolding contains
contains-snoc_ne c d [] h e = ground arith
contains-snoc_ne c d (x ∷ xs) h e = ground (arith, contains-snoc_ne c d xs)

Gone-slots :
    (c : ℕ) (s : Semaphore) (ws slots : List (Option ℕ))
    → Gone c s slots
    → Gone c (record s { waiters = ws }) slots
Gone-slots c s ws slots g = record {
  numbered = g.numbered;
  absent = g.absent;
  unserved = g.unserved;
}

module _ (c : ℕ) where
  hand_over-Gone :
      (s : Semaphore) (d : ℕ) (rest : List (Option ℕ))
      → Gone c s (some d ∷ rest)
      → Gone c (hand_over s d) rest
  unfolding contains
  hand_over-Gone s d rest g =
      let other : d ≢ c = λ e. ground (arith, g.absent) in
      record {
        numbered = g.numbered;
        absent = ground (arith, g.absent);
        unserved = rw (settle_other s.outcomes c d granted other) g.unserved;
      }

  -- The same of the state that a step leaves, if it ends.
  abbrev pub Stays : Option Semaphore → Type 0
  Stays none = Unit
  Stays (some t) = Gone c t t.waiters

  pump_loop-Gone :
      (s : Semaphore) (slots : List (Option ℕ)) → Gone c s slots → Stays (pump_loop s slots)
  unfolding pump_loop
  pump_loop-Gone s [] g = elim (Bool-cases (may_pump s)) [
    | inl go ↦ rw go tt
    | inr stop ↦ rw stop (Gone-slots c s [] [] g)
  ]
  pump_loop-Gone s (none ∷ rest) g = elim (Bool-cases (may_pump s)) [
    | inl go ↦ rw go (
        pump_loop-Gone s rest (
          Gone-slots c s s.waiters rest
            (record { numbered = g.numbered; absent = g.absent; unserved = g.unserved })))
    | inr stop ↦ rw stop (Gone-slots c s (none ∷ rest) (none ∷ rest) g)
  ]
  pump_loop-Gone s (some d ∷ rest) g = elim (Bool-cases (may_pump s)) [
    | inl go ↦ rw go (pump_loop-Gone (hand_over s d) rest (hand_over-Gone s d rest g))
    | inr stop ↦ rw stop (Gone-slots c s (some d ∷ rest) (some d ∷ rest) g)
  ]

  compact-Gone : (s : Semaphore) → Gone c s s.waiters → Gone c (compact s) (compact s).waiters
  unfolding compact contains
  compact-Gone s g = elim (Bool-cases (s.live == 0)) [
    | inl idle ↦ rw idle (record { numbered = g.numbered; absent = refl; unserved = g.unserved })
    | inr waiting ↦ rw waiting g
  ]

  pump-Gone : (s : Semaphore) → Gone c s s.waiters → Stays (pump s)
  unfolding pump
  pump-Gone s g = go (pump_loop s s.waiters) (pump_loop-Gone s s.waiters g)
    where
      go :
          (o : Option Semaphore)
          → Stays o
          → Stays (elim o [ none ↦ none | some t ↦ some (compact t) ])
      go none h = tt
      go (some t) h = compact-Gone t h

  release-Gone : (s : Semaphore) (d : ℕ) → Gone c s s.waiters → Stays (release s d)
  unfolding release
  release-Gone s d g = elim (Bool-cases (contains d s.served && not (s.released d))) [
    | inl held ↦
        rw held
          (pump-Gone _ (record { numbered = g.numbered; absent = g.absent; unserved = g.unserved }))
    | inr other ↦ rw other g
  ]

  settled-Gone :
      (s : Semaphore) (o : Outcome)
      → Gone c s s.waiters
      → settle s.outcomes s.next_caller o c ≢ some granted
  settled-Gone s o g =
      rw (settle_other s.outcomes c s.next_caller o (omega (arith, g.numbered))) g.unserved

  acquire-Gone :
      (s : Semaphore) (signal : Option Bool)
      → Gone c s s.waiters
      → Gone c (acquire s signal) (acquire s signal).waiters
  unfolding acquire
  acquire-Gone s signal g = elim (Bool-cases (has_fired signal)) [
    | inl fired ↦ rw fired (record {
      numbered = omega (arith, g.numbered);
      absent = g.absent;
      unserved = settled-Gone s aborted g;
    })
    | inr quiet ↦ elim (Bool-cases (ltb s.in_flight s.limit)) [
      | inl free ↦
          rw (quiet, free)
            (record {
              numbered = omega (arith, g.numbered);
              absent = g.absent;
              unserved = settled-Gone s granted g;
            })
      | inr taken ↦ elim (Bool-cases (leb s.queue_limit s.live)) [
        | inl full ↦
            rw (quiet, taken, full)
              (record {
                numbered = omega (arith, g.numbered);
                absent = g.absent;
                unserved = settled-Gone s queue_full g;
              })
        | inr room ↦
            rw (quiet, taken, room)
              (record {
                numbered = omega (arith, g.numbered);
                absent = rw (queued-append s.waiters s.next_caller) (
                    contains-snoc_ne c s.next_caller (queued s.waiters) (omega (arith, g.numbered))
                      g.absent);
                unserved = g.unserved;
              })
      ]
    ]
  ]

  on_abort-Gone :
      (s : Semaphore) (d i : ℕ)
      → Gone c s s.waiters
      → Gone c (on_abort s d i) (on_abort s d i).waiters
  unfolding on_abort
  on_abort-Gone s d i g = elim (Option-cases (get_elem? s.waiters i)) [
    | inl beyond ↦ rw (beyond, on_abort) g
    | inr (none, vacant) ↦ rw (vacant, on_abort) g
    | inr (some waiting, occupied) ↦
        rw (occupied, on_abort)
          (record {
            numbered = g.numbered;
            absent = not_contains-vacate c s.waiters i g.absent;
            unserved = settle_aborted s.outcomes c d g.unserved;
          })
  ]

  abort-Gone : (s : Semaphore) (d : ℕ) → Gone c s s.waiters → Gone c (abort s d) (abort s d).waiters
  unfolding abort
  abort-Gone s d g = elim (Option-cases (captured d s.listeners)) [
    | inl deaf ↦ rw (deaf, abort) g
    | inr (i, listening) ↦
        rw (listening, abort)
          (on_abort-Gone (record s { listeners = detach d s.listeners }) d i
            (record { numbered = g.numbered; absent = g.absent; unserved = g.unserved }))
  ]

  step-Gone : (s : Semaphore) (e : Event) → Gone c s s.waiters → Stays (step s e)
  unfolding step
  step-Gone s (acquires signal) g = acquire-Gone s signal g
  step-Gone s (releases d) g = release-Gone s d g
  step-Gone s (aborts d) g = abort-Gone s d g

  pub run-Gone : (s : Semaphore) (es : List Event) → Gone c s s.waiters → Stays (run s es)
  unfolding run
  run-Gone s [] g = g
  run-Gone s (e ∷ es) g = go (step s e) (step-Gone s e g) (λ t. run-Gone t es)
    where
      go :
          (o : Option Semaphore)
          → Stays o
          → ((t : Semaphore) → Gone c t t.waiters → Stays (run t es))
          → Stays (elim o [ none ↦ none | some t ↦ run t es ])
      go none h later = tt
      go (some t) h later = later t h
