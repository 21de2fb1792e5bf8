-- ===== src/Semaphore/Stranded.antt =====
-- packages/router/src/concurrency.ts: an abort whose captured index is out of date. `onAbort` keeps
-- the index at which its waiter was pushed, and `pump` shifts the array.
use goatrouter.Common.{
  ℕ, zero, suc, ◌-◌, ◌≤◌, ◌<◌, ◌≡◌, ◌≢◌, refl, sym, ap, subst, ◌∙◌, true, false, Option, none, some,
  List, [], ◌∷◌, ◌++◌, arith, get_elem?, set,
}
use goatrouter.Semaphore.{
  granted, aborted, Semaphore, contains, on_abort, abort, captured, detach, settle, Event, run,
}
use goatrouter.Semaphore.Chains.{Chain, Chain-le, Chain-mono, queued}
use goatrouter.Semaphore.Pumping.{Inv}
use goatrouter.Semaphore.Gone.{Gone, Stays, run-Gone}

Chain-get_elem? :
    (lo hi : ℕ) (ws : List (Option ℕ)) (i c : ℕ)
    → Chain lo (queued ws) hi
    → get_elem? ws i ≡ some (some c)
    → (lo ≤ c) × (c < hi)
Chain-get_elem? lo hi [] i c k h = ground arith
Chain-get_elem? lo hi (none ∷ ws) zero c k h = ground arith
Chain-get_elem? lo hi (some d ∷ ws) zero c k h = ground (arith, Chain-le (suc d) (queued ws) hi k.1)
Chain-get_elem? lo hi (none ∷ ws) (suc i) c k h = Chain-get_elem? lo hi ws i c k h
Chain-get_elem? lo hi (some d ∷ ws) (suc i) c k h =
    omega (arith, Chain-get_elem? (suc d) hi ws i c k.1 h)

Chain-back : (lo hi : ℕ) (xs ys : List ℕ) → Chain lo (xs ++ ys) hi → Chain lo ys hi
Chain-back lo hi [] ys k = k
Chain-back lo hi (x ∷ xs) ys k =
    Chain-mono (suc x) lo ys hi (omega arith) (Chain-back (suc x) hi xs ys k.1)

-- Behind its slot a caller of a chain stands nowhere else.
not_contains_above :
    (c lo hi : ℕ) (ws : List (Option ℕ))
    → c < lo
    → Chain lo (queued ws) hi
    → contains c (queued ws) ≡ false
unfolding contains
not_contains_above c lo hi [] h k = refl
not_contains_above c lo hi (none ∷ ws) h k = not_contains_above c lo hi ws h k
not_contains_above c lo hi (some d ∷ ws) h k =
    ground (arith, not_contains_above c (suc d) hi ws (omega arith) k.1)

vacated_absent :
    (lo hi : ℕ) (ws : List (Option ℕ)) (i c : ℕ)
    → Chain lo (queued ws) hi
    → get_elem? ws i ≡ some (some c)
    → contains c (queued (set ws i none)) ≡ false
unfolding contains
vacated_absent lo hi [] i c k h = ground arith
vacated_absent lo hi (none ∷ ws) zero c k h = ground arith
vacated_absent lo hi (some d ∷ ws) zero c k h =
    let same : d ≡ c = ground arith in
    subst (λ x. contains x (queued ws) ≡ false) same
      (not_contains_above d (suc d) hi ws (omega arith) k.1)
vacated_absent lo hi (none ∷ ws) (suc i) c k h = vacated_absent lo hi ws i c k h
vacated_absent lo hi (some d ∷ ws) (suc i) c k h =
    let later : suc d ≤ c = (Chain-get_elem? (suc d) hi ws i c k.1 h).0 in
    ground (arith, vacated_absent (suc d) hi ws i c k.1 h)

vacated_keeps :
    (ws : List (Option ℕ)) (i b c : ℕ)
    → b ≢ c
    → get_elem? ws i ≡ some (some c)
    → contains b (queued ws) ≡ true
    → contains b (queued (set ws i none)) ≡ true
unfolding contains
vacated_keeps [] i b c n h k = k
vacated_keeps (none ∷ ws) zero b c n h k = k
vacated_keeps (some d ∷ ws) zero b c n h k = ground arith
vacated_keeps (none ∷ ws) (suc i) b c n h k = vacated_keeps ws i b c n h k
vacated_keeps (some d ∷ ws) (suc i) b c n h k = ground (arith, vacated_keeps ws i b c n h)

-- What `onAbort` does at an occupied slot.
abbrev vacate : Semaphore → ℕ → ℕ → Semaphore
vacate s b i = record s {
  waiters = set s.waiters i none;
  live = s.live - 1;
  listeners = detach b s.listeners;
  outcomes = settle s.outcomes b aborted;
}

abort_occupied :
    (s : Semaphore) (b c i : ℕ)
    → captured b s.listeners ≡ some i
    → get_elem? s.waiters i ≡ some (some c)
    → abort s b ≡ vacate s b i
unfolding abort on_abort
abort_occupied s b c i listening occupied = rw (listening, abort, occupied, on_abort) refl

vacate_refuses :
    (s : Semaphore) (b i : ℕ) → s.outcomes b ≡ none → (vacate s b i).outcomes b ≡ some aborted
unfolding settle
vacate_refuses s b i quiet = ground arith

vacate_unserved :
    (s : Semaphore) (b c i : ℕ)
    → b ≢ c
    → s.outcomes c ≡ none
    → (vacate s b i).outcomes c ≢ some granted
unfolding settle
vacate_unserved s b c i other quiet = ground arith

-- In a semaphore in order, let the listener of a queued caller b hold an index at which another
-- caller c now waits, neither being settled. When the signal of b fires, b is refused and yet
-- stays in the queue, c leaves it though its own signal did not fire, and whatever happens
-- afterwards c is never given a permit.
pub stale_abort :
    (limit queue_limit : ℕ) (s t : Semaphore) (b c i : ℕ) (es : List Event)
    → Inv limit queue_limit s
    → captured b s.listeners ≡ some i
    → get_elem? s.waiters i ≡ some (some c)
    → b ≢ c
    → contains b (queued s.waiters) ≡ true
    → s.outcomes b ≡ none
    → s.outcomes c ≡ none
    → run (abort s b) es ≡ some t
    → ((abort s b).outcomes b ≡ some aborted)
      × (contains b (queued (abort s b).waiters) ≡ true)
      × (contains c (queued (abort s b).waiters) ≡ false)
      × (t.outcomes c ≢ some granted)
stale_abort limit queue_limit s t b c i es v listening occupied other waits quiet_b quiet_c ran =
    let e = abort_occupied s b c i listening occupied in
    let queue = Chain-back 0 s.next_caller s.served (queued s.waiters) v.loop.in_order in
    let absent = vacated_absent 0 s.next_caller s.waiters i c queue occupied in
    let gone : Gone c (vacate s b i) (vacate s b i).waiters = record {
      numbered = (Chain-get_elem? 0 s.next_caller s.waiters i c queue occupied).1;
      absent = absent;
      unserved = vacate_unserved s b c i other quiet_c;
    } in
    let stays : Stays c (some t) =
      subst (Stays c) (sym (ap (λ q. run q es) e) ∙ ran) (run-Gone c (vacate s b i) es gone) in
    (
      rw e (vacate_refuses s b i quiet_b),
      rw e (vacated_keeps s.waiters i b c other occupied waits),
      rw e absent,
      stays.unserved,
    )
