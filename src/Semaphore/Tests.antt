-- ===== src/Semaphore/Tests.antt =====
-- The semaphore with one permit and a full queue, and its theorems there.
use goatrouter.Common.{
  ◌≡◌, ◌≢◌, refl, sym, ◌∙◌, subst, true, false, none, some, List, [], ◌∷◌, arith, ◌==◌,
  if◌then◌else◌,
}
use goatrouter.Errors.{ok}
use goatrouter.Semaphore.{
  granted, aborted, Semaphore, create_semaphore, contains, settle, detach, captured, compact,
  pump_loop, pump, release, enqueue, acquire, abort, Event, acquires, releases, step, run,
}
use goatrouter.Semaphore.Chains.{queued}
use goatrouter.Semaphore.Pumping.{Inv}
use goatrouter.Semaphore.Invariant.{run_create-Inv}
use goatrouter.Semaphore.Idempotent.{release_twice}
use goatrouter.Semaphore.Stranded.{stale_abort}

abbrev single : Semaphore
single = record {
  limit = 1;
  queue_limit = 8;
  in_flight = 0;
  waiters = [];
  live = 0;
  listeners = [];
  next_caller = 0;
  served = [];
  released = λ _. false;
  outcomes = λ _. none;
}

single_created : create_semaphore (some 1) (some 8) ≡ ok single
unfolding create_semaphore
single_created = refl

too_wide : create_semaphore (some 513) none ≢ ok single
unfolding create_semaphore
too_wide e = cc e

-- Caller 0 holds the permit; 1, 2 and 3 queue with signals; 0 releases, so that 1 is served.
abbrev rush : List Event
rush =
    acquires none
    ∷ acquires (some false)
    ∷ acquires (some false)
    ∷ acquires (some false)
    ∷ releases 0
    ∷ []

-- What `rush` leaves: 2 and 3 moved to the slots 0 and 1, their listeners hold 1 and 2.
abbrev shifted : Semaphore
shifted = record {
  limit = 1;
  queue_limit = 8;
  in_flight = 1;
  waiters = some 2 ∷ some 3 ∷ [];
  live = 2;
  listeners = (3, 2) ∷ (2, 1) ∷ [];
  next_caller = 4;
  served = 0 ∷ 1 ∷ [];
  released = λ k. if 0 == k then true else false;
  outcomes = settle (settle (λ _. none) 0 granted) 1 granted;
}

rush_shifts : run single rush ≡ some shifted
unfolding run step acquire enqueue release pump pump_loop compact contains detach settle
rush_shifts = refl

run_create-Inv_example : (t : Semaphore) × (run single rush ≡ some t) × Inv 1 8 t
run_create-Inv_example = run_create-Inv (some 1) (some 8) single rush single_created

shifted-Inv : Inv 1 8 shifted
shifted-Inv =
    let (t, ran, v) = run_create-Inv (some 1) (some 8) single rush single_created in
    let same : t ≡ shifted = cc (sym ran ∙ rush_shifts) in subst (Inv 1 8) same v

release_twice_example :
    release (record single { served = 0 ∷ []; released = λ k. if 0 == k then true else false }) 0
    ≡ some (record single { served = 0 ∷ []; released = λ k. if 0 == k then true else false })
unfolding release pump pump_loop compact contains
release_twice_example = release_twice (record single { served = 0 ∷ []; in_flight = 1 }) _ 0 refl

stale_abort_example :
    ((abort shifted 2).outcomes 2 ≡ some aborted)
    × (contains 2 (queued (abort shifted 2).waiters) ≡ true)
    × (contains 3 (queued (abort shifted 2).waiters) ≡ false)
    × ((abort shifted 2).outcomes 3 ≢ some granted)
unfolding run captured contains settle
stale_abort_example =
    stale_abort 1 8 shifted (abort shifted 2) 2 3 1 [] shifted-Inv refl refl (omega arith) refl refl
      refl refl
