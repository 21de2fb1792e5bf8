-- ===== src/Semaphore.antt =====
-- packages/router/src/concurrency.ts: the counting semaphore with its bounded queue.
-- Each call of `acquire` is a caller, numbered in order; the number also names the promise, the
-- waiter, the abort listener and the release closure of that call. The code between two turns of
-- the event loop is one step; `none` means that the loop of `pump` never ends.
pub mod Chains
pub mod Pumping
pub mod Invariant
pub mod Gone
pub mod Stranded
pub mod Idempotent
mod Tests
use goatrouter.Common.{
  ℕ, suc, ◌+◌, ◌-◌, Bool, true, false, not, ◌&&◌, ◌||◌, Option, none, some, List, [], ◌∷◌, ◌++◌,
  ltb, leb, ◌==◌, if◌then◌else◌, get_elem?, set, length,
}
use goatrouter.Errors.{Result, ok, err, invalid_route_config, require, ◌>>=◌, ◌>>◌}

-- How the promise of a caller is settled: with a release closure, with
-- `ProviderError("unreachable", "concurrency-aborted")`, or with
-- `RouterError("rate_limited", "concurrency-queue-full")`.
pub data Outcome : Type 0 where
  granted aborted queue_full : Outcome

pub record Semaphore : Type 0 where
  pub limit : ℕ
  pub queue_limit : ℕ
  pub in_flight : ℕ
  -- The array, with `none` for an `undefined` slot.
  pub waiters : List (Option ℕ)
  pub live : ℕ
  -- The abort listeners attached, each with the index that its closure captured.
  pub listeners : List (ℕ × ℕ)
  pub next_caller : ℕ
  -- The callers for which `makeRelease` ran, in order, and the flag of each closure.
  pub served : List ℕ
  pub released : ℕ → Bool
  pub outcomes : ℕ → Option Outcome

-- `options.limit ?? OUTBOUND_CONCURRENCY_DEFAULT`.
abbrev default_to : ℕ → Option ℕ → ℕ
default_to d none = d
default_to d (some n) = n

pub create_semaphore : Option ℕ → Option ℕ → Result Semaphore
create_semaphore limit queue_limit = do
  require (leb 1 (default_to 32 limit) && leb (default_to 32 limit) 512) invalid_route_config
      "concurrency-limit"
  require (leb 1 (default_to 256 queue_limit) && leb (default_to 256 queue_limit) 100_000)
      invalid_route_config "concurrency-queue"
  ok (record {
    limit = default_to 32 limit;
    queue_limit = default_to 256 queue_limit;
    in_flight = 0;
    waiters = [];
    live = 0;
    listeners = [];
    next_caller = 0;
    served = [];
    released = λ _. false;
    outcomes = λ _. none;
  })

-- A promise that is settled stays as it is.
unfoldable pub settle : (ℕ → Option Outcome) → ℕ → Outcome → ℕ → Option Outcome
settle outcomes caller outcome k =
    if caller == k
    then elim (outcomes k) [ none ↦ some outcome | some earlier ↦ some earlier ]
    else outcomes k

unfoldable pub detach : ℕ → List (ℕ × ℕ) → List (ℕ × ℕ)
detach caller [] = []
detach caller ((c, i) ∷ ls) = if c == caller then detach caller ls else (c, i) ∷ detach caller ls

unfoldable pub captured : ℕ → List (ℕ × ℕ) → Option ℕ
captured caller [] = none
captured caller ((c, i) ∷ ls) = if c == caller then some i else captured caller ls

unfoldable pub contains : ℕ → List ℕ → Bool
contains c [] = false
contains c (x ∷ xs) = x == c || contains c xs

-- `inFlight += 1` and `resolve(makeRelease())` for a caller.
abbrev grant : Semaphore → ℕ → Semaphore
grant s caller = record s {
  in_flight = s.in_flight + 1;
  served = s.served ++ caller ∷ [];
  outcomes = settle s.outcomes caller granted;
}

-- The body of the loop of `pump` at a waiter.
abbrev hand_over : Semaphore → ℕ → Semaphore
hand_over s caller = record (grant s caller) {
  live = s.live - 1;
  listeners = detach caller s.listeners;
}

abbrev pub may_pump : Semaphore → Bool
may_pump s = ltb s.in_flight s.limit && ltb 0 s.live

-- The loop over the array that is left. An empty array gives `undefined` for ever.
pump_loop : Semaphore → List (Option ℕ) → Option Semaphore
pump_loop s [] = if may_pump s then none else some (record s { waiters = [] })
pump_loop s (none ∷ rest) =
    let skipped = pump_loop s rest in
    if may_pump s then skipped else some (record s { waiters = none ∷ rest })
pump_loop s (some caller ∷ rest) =
    let handed = pump_loop (hand_over s caller) rest in
    if may_pump s then handed else some (record s { waiters = some caller ∷ rest })

compact : Semaphore → Semaphore
compact s = if s.live == 0 then record s { waiters = [] } else s

pub pump : Semaphore → Option Semaphore
unfolding compact
pump s = elim (pump_loop s s.waiters) [ none ↦ none | some t ↦ some (compact t) ]

-- The closure of `makeRelease` for a caller; there is none for a caller that was not served.
unfoldable pub release : Semaphore → ℕ → Option Semaphore
release s caller =
    if contains caller s.served && not (s.released caller)
    then pump (record s {
      in_flight = s.in_flight - 1;
      released = λ k. if caller == k then true else s.released k;
    })
    else some s

-- The caller joins the queue, and listens if it has a signal.
enqueue : Semaphore → ℕ → Bool → Semaphore
enqueue s caller listens = record s {
  waiters = s.waiters ++ some caller ∷ [];
  live = s.live + 1;
  listeners = if listens then (caller, length s.waiters) ∷ s.listeners else s.listeners;
}

abbrev pub has_fired : Option Bool → Bool
has_fired none = false
has_fired (some fired) = fired

abbrev pub is_given : Option Bool → Bool
is_given none = false
is_given (some fired) = true

-- `acquire(signal)`: no signal, or one with its `aborted` flag.
unfoldable pub acquire : Semaphore → Option Bool → Semaphore
unfolding enqueue
acquire s signal =
    let caller = s.next_caller in
    let counted = record s { next_caller = suc caller } in
    if has_fired signal
    then record counted { outcomes = settle s.outcomes caller aborted }
    else (if ltb s.in_flight s.limit
        then grant counted caller
        else (if leb s.queue_limit s.live
            then record counted { outcomes = settle s.outcomes caller queue_full }
            else enqueue counted caller (is_given signal)))

-- `onAbort` of a caller, whose listener is attached once.
on_abort : Semaphore → ℕ → ℕ → Semaphore
on_abort s caller index = elim (get_elem? s.waiters index) [
  | none ↦ s
  | some slot ↦ elim slot [
    | none ↦ s
    | some waiting ↦ record s {
      waiters = set s.waiters index none;
      live = s.live - 1;
      outcomes = settle s.outcomes caller aborted;
    }
  ]
]

-- The signal of a caller fires.
unfoldable pub abort : Semaphore → ℕ → Semaphore
unfolding on_abort
abort s caller = elim (captured caller s.listeners) [
  | none ↦ s
  | some index ↦ on_abort (record s { listeners = detach caller s.listeners }) caller index
]

pub data Event : Type 0 where
  acquires : Option Bool → Event
  releases aborts : ℕ → Event

pub step : Semaphore → Event → Option Semaphore
step s (acquires signal) = some (acquire s signal)
step s (releases caller) = release s caller
step s (aborts caller) = some (abort s caller)

-- Events, oldest first.
pub run : Semaphore → List Event → Option Semaphore
run s [] = some s
run s (e ∷ es) = elim (step s e) [ none ↦ none | some t ↦ run t es ]

-- The process-wide limiter, `shared`; none stands for `undefined`.
pub outbound_semaphore : Option Semaphore → Result (Semaphore × Option Semaphore)
outbound_semaphore none = do made ← create_semaphore none none; ok (made, some made)
outbound_semaphore (some s) = ok (s, some s)

-- The limiter after `configureOutboundConcurrency`, and what the call returns or throws.
pub configure_outbound_concurrency :
    Option Semaphore → Option ℕ → Option ℕ → Option Semaphore × Result Semaphore
configure_outbound_concurrency shared limit queue_limit =
    elim (create_semaphore limit queue_limit) [
      | err e ↦ (shared, err e)
      | ok made ↦ (some made, ok made)
    ]

pub reset_outbound_concurrency : Option Semaphore → Option Semaphore
reset_outbound_concurrency shared = none
