-- ===== src/Semaphore/Pumping.antt =====
-- packages/router/src/concurrency.ts: the invariant of the semaphore, and that `pump` ends and
-- restores it.
use goatrouter.Common.{
  ℕ, suc, ◌≤◌, ◌<◌, ◌≡◌, refl, sym, inl, inr, true, false, Option, none, some, List, [], ◌∷◌, ◌++◌,
  arith, ◌==◌, length, Bool-cases,
}
use mathlib.Core.List.{append_assoc}
use goatrouter.Semaphore.{Semaphore, contains, hand_over, may_pump, pump_loop, compact, pump}
use goatrouter.Semaphore.Chains.{Chain, queued, unreleased, unreleased-append}

-- The invariant that the loop of `pump` keeps, over the slots that are left.
pub record LoopInv (limit queue_limit : ℕ) (s : Semaphore) (slots : List (Option ℕ)) : Type 0 where
  pub same_limit : s.limit ≡ limit
  pub same_queue_limit : s.queue_limit ≡ queue_limit
  pub counted : s.live ≡ length (queued slots)
  pub permits : s.in_flight ≡ unreleased s.released s.served
  pub capped : s.in_flight ≤ limit
  pub bounded : s.live ≤ queue_limit
  pub in_order : Chain 0 (s.served ++ queued slots) s.next_caller
  pub unused : (k : ℕ) → contains k s.served ≡ false → s.released k ≡ false

-- Between two turns: the live count is that of the queue, the permits in flight are the release
-- closures not yet used, neither passes its limit, the callers served and then those queued stand
-- in order of arrival, each once, and nobody waits while a permit is free.
pub record Inv (limit queue_limit : ℕ) (s : Semaphore) : Type 0 where
  pub loop : LoopInv limit queue_limit s s.waiters
  pub busy : 0 < s.live → s.in_flight ≡ limit

pub contains-snoc :
    (k c : ℕ) (xs : List ℕ) → contains k (xs ++ c ∷ []) ≡ false → contains k xs ≡ false
unfolding contains
contains-snoc k c [] h = refl
contains-snoc k c (x ∷ xs) h = ground (arith, contains-snoc k c xs)

-- In a chain a later caller is not among the earlier ones.
pub contains_later :
    (c lo hi : ℕ) (xs rest : List ℕ)
    → Chain lo (xs ++ c ∷ rest) hi
    → (lo ≤ c) × (contains c xs ≡ false)
unfolding contains
contains_later c lo hi [] rest h = (h.0, refl)
contains_later c lo hi (x ∷ xs) rest h = ground (arith, contains_later c (suc x) hi xs rest h.1)

pub queued_of_idle : (ws : List (Option ℕ)) → 0 ≡ length (queued ws) → queued ws ≡ []
queued_of_idle [] e = refl
queued_of_idle (none ∷ ws) e = queued_of_idle ws e
queued_of_idle (some c ∷ ws) e = absurd (omega arith)

module _ (limit queue_limit : ℕ) where
  -- The invariant sees of the array only the callers queued.
  LoopInv-requeue :
      (s : Semaphore) (ws slots slots' : List (Option ℕ))
      → queued slots' ≡ queued slots
      → LoopInv limit queue_limit s slots
      → LoopInv limit queue_limit (record s { waiters = ws }) slots'
  LoopInv-requeue s ws slots slots' e v = record {
    same_limit = v.same_limit;
    same_queue_limit = v.same_queue_limit;
    counted = rw e v.counted;
    permits = v.permits;
    capped = v.capped;
    bounded = v.bounded;
    in_order = rw e v.in_order;
    unused = v.unused;
  }

  hand_over-LoopInv :
      (s : Semaphore) (c : ℕ) (rest : List (Option ℕ))
      → may_pump s ≡ true
      → LoopInv limit queue_limit s (some c ∷ rest)
      → LoopInv limit queue_limit (hand_over s c) rest
  hand_over-LoopInv s c rest go v = record {
    same_limit = v.same_limit;
    same_queue_limit = v.same_queue_limit;
    counted = omega (arith, v.counted);
    permits = omega (
      arith,
      v.permits,
      unreleased-append s.released s.served c
          (v.unused c (contains_later c 0 s.next_caller s.served (queued rest) v.in_order).1),
    );
    capped = ground (arith, v.capped, v.same_limit);
    bounded = omega (arith, v.bounded);
    in_order = rw append_assoc v.in_order;
    unused = λ k h. v.unused k (contains-snoc k c s.served h);
  }

  -- The loop ends, keeps the invariant, and stops only when it may hand over no more.
  pump_loop-LoopInv :
      (s : Semaphore) (slots : List (Option ℕ))
      → LoopInv limit queue_limit s slots
      → (t : Semaphore) × (pump_loop s slots ≡ some t)
        × LoopInv limit queue_limit t t.waiters
        × (may_pump t ≡ false)
  unfolding pump_loop
  pump_loop-LoopInv s [] v =
      let stop : may_pump s ≡ false = ground (arith, v.counted) in
      (record s { waiters = [] }, rw stop refl, LoopInv-requeue s [] [] [] refl v, stop)
  pump_loop-LoopInv s (none ∷ rest) v = elim (Bool-cases (may_pump s)) [
    | inl go ↦
        rw go (pump_loop-LoopInv s rest (LoopInv-requeue s s.waiters (none ∷ rest) rest refl v))
    | inr stop ↦ (
      record s { waiters = none ∷ rest },
      rw stop refl,
      LoopInv-requeue s (none ∷ rest) (none ∷ rest) (none ∷ rest) refl v,
      stop,
    )
  ]
  pump_loop-LoopInv s (some c ∷ rest) v = elim (Bool-cases (may_pump s)) [
    | inl go ↦ rw go (pump_loop-LoopInv (hand_over s c) rest (hand_over-LoopInv s c rest go v))
    | inr stop ↦ (
      record s { waiters = some c ∷ rest },
      rw stop refl,
      LoopInv-requeue s (some c ∷ rest) (some c ∷ rest) (some c ∷ rest) refl v,
      stop,
    )
  ]

  compact-Inv :
      (s : Semaphore)
      → LoopInv limit queue_limit s s.waiters
      → may_pump s ≡ false
      → Inv limit queue_limit (compact s)
  unfolding compact
  compact-Inv s v stop = elim (Bool-cases (s.live == 0)) [
    | inl idle ↦ rw idle (record {
      loop =
          LoopInv-requeue s [] s.waiters []
            (sym (queued_of_idle s.waiters (ground (arith, v.counted)))) v;
      busy = ground arith;
    })
    | inr waiting ↦
        rw waiting (record { loop = v; busy = λ h. ground (arith, v.capped, v.same_limit) })
  ]

  -- `pump` ends, and leaves nobody waiting for a free permit.
  pub pump-Inv :
      (s : Semaphore)
      → LoopInv limit queue_limit s s.waiters
      → (t : Semaphore) × (pump s ≡ some t) × Inv limit queue_limit t
  unfolding pump
  pump-Inv s v =
      let (t, e, w, stop) = pump_loop-LoopInv s s.waiters v in
      (compact t, rw (e, pump) refl, compact-Inv t w stop)
