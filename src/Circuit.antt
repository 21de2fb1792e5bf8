-- ===== src/Circuit.antt =====
-- packages/router/src/circuit.ts: the in-memory circuit breaker of each provider.
-- A method takes the breaker and the reading of the injected clock, and returns the breaker after
-- it; `Map<string, CircuitStatePrivate>` is a function from provider ids.
pub mod History
pub mod Probe
mod Tests
use goatrouter.Common.{
  ℕ, ◌+◌, Bool, true, false, Option, none, some, List, [], ◌∷◌, Text, update, leb, if◌then◌else◌,
}

pub data CircuitState : Type 0 where
  closed open_state half_open : CircuitState

-- `CircuitStatePrivate`: the streak, the time of opening, whether the probe is used.
pub data Entry : Type 0 where
  counting : ℕ → Entry
  opened : ℕ → Entry
  probing : Bool → Entry

pub record CircuitBreaker : Type 0 where
  pub threshold : ℕ
  pub cooldown_ms : ℕ
  pub by_provider : Text → Option Entry

-- The constructor, with the defaults of `CircuitOptions`.
unfoldable pub new_breaker : Option ℕ → Option ℕ → CircuitBreaker
new_breaker threshold cooldown = record {
  threshold = elim threshold [ none ↦ 3 | some n ↦ n ];
  cooldown_ms = elim cooldown [ none ↦ 30_000 | some n ↦ n ];
  by_provider = λ _. none;
}

unfoldable pub state_of : Option Entry → CircuitState
state_of none = closed
state_of (some (counting streak)) = closed
state_of (some (opened at)) = open_state
state_of (some (probing used)) = half_open

unfoldable pub state : CircuitBreaker → Text → CircuitState
state c id = state_of (c.by_provider id)

put : CircuitBreaker → Text → Entry → CircuitBreaker
put c id entry = record c { by_provider = update c.by_provider id entry }

-- What `allow` leaves in the map and answers, by the entry that it finds; where the source leaves
-- the entry alone, the same one is written back.
-- `now - openedAt >= cooldownMs` is over integers, so it is written without a subtraction.
unfoldable pub allow_entry : ℕ → ℕ → Option Entry → Entry × Bool
allow_entry cooldown now none = (counting 0, true)
allow_entry cooldown now (some (counting streak)) = (counting streak, true)
allow_entry cooldown now (some (probing true)) = (probing true, false)
allow_entry cooldown now (some (probing false)) = (probing true, true)
allow_entry cooldown now (some (opened at)) =
    if leb (at + cooldown) now then (probing true, true) else (opened at, false)

unfoldable pub allow : CircuitBreaker → Text → ℕ → CircuitBreaker × Bool
unfolding put
allow c id now =
    let (entry, admitted) = allow_entry c.cooldown_ms now (c.by_provider id) in
    (put c id entry, admitted)

unfoldable pub on_success : CircuitBreaker → Text → CircuitBreaker
unfolding put
on_success c id = put c id (counting 0)

-- `const streak = (entry === undefined ? 0 : entry.streak) + 1`, and the test of the threshold.
count_failure : ℕ → ℕ → ℕ → Entry
count_failure threshold now streak =
    if leb threshold (streak + 1) then opened now else counting (streak + 1)

unfoldable pub failure_entry : ℕ → ℕ → Option Entry → Entry
unfolding count_failure
failure_entry threshold now (some (probing used)) = opened now
failure_entry threshold now (some (opened at)) = opened now
failure_entry threshold now (some (counting streak)) = count_failure threshold now streak
failure_entry threshold now none = count_failure threshold now 0

unfoldable pub on_transient_failure : CircuitBreaker → Text → ℕ → CircuitBreaker
unfolding put
on_transient_failure c id now = put c id (failure_entry c.threshold now (c.by_provider id))

-- A call of a method for one provider, at a time.
pub data Call : Type 0 where
  asks : ℕ → Call
  succeeds : Call
  fails : ℕ → Call

unfoldable pub call : CircuitBreaker → Text × Call → CircuitBreaker
call c (id, asks now) = (allow c id now).0
call c (id, succeeds) = on_success c id
call c (id, fails now) = on_transient_failure c id now

-- The breaker after a history, newest call first.
unfoldable pub after : CircuitBreaker → List (Text × Call) → CircuitBreaker
after c [] = c
after c (k ∷ past) = call (after c past) k
