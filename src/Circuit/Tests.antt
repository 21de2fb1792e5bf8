-- ===== src/Circuit/Tests.antt =====
-- The circuit breaker on small histories, and its theorems at them.
use goatrouter.Common.{◌≡◌, refl, false, none, List, [], ◌∷◌, arith, Text, text_eq, update, codes}
use goatrouter.Circuit.{
  closed, half_open, CircuitBreaker, new_breaker, state, state_of, allow, allow_entry, on_success,
  failure_entry, on_transient_failure, Call, asks, succeeds, fails, call, after,
}
use goatrouter.Circuit.History.{calls_for, expected, admits, state-after, allow-after}
use goatrouter.Circuit.Probe.{half_open_refuses}

abbrev breaker : CircuitBreaker
unfolding new_breaker
breaker = new_breaker none none

abbrev east : Text
east = codes "east"

abbrev west : Text
west = codes "west"

-- Three failures of one provider, then a request after the cooldown; newest first.
abbrev outage : List (Text × Call)
outage =
    (east, asks 40_000)
    ∷ (west, succeeds)
    ∷ (east, fails 9_000)
    ∷ (east, fails 8_000)
    ∷ (east, asks 7_000)
    ∷ (east, fails 100)
    ∷ []

outage_states :
    (state (after breaker outage) east ≡ half_open) × (state (after breaker outage) west ≡ closed)
unfolding new_breaker after call allow on_success on_transient_failure allow_entry failure_entry
    state state_of text_eq update
outage_states = (refl, refl)

state-after_example : state (after breaker outage) east ≡ expected 3 30_000 (calls_for east outage)
unfolding new_breaker
state-after_example = state-after breaker (λ j. refl) (omega arith) east outage

allow-after_example :
    (allow (after breaker outage) east 90_000).1 ≡ admits 3 30_000 90_000 (calls_for east outage)
unfolding new_breaker
allow-after_example = allow-after breaker (λ j. refl) (omega arith) east outage 90_000

half_open_refuses_example :
    (allow (after breaker ((east, asks 1_000_000) ∷ outage)) east 2_000_000).1 ≡ false
unfolding new_breaker after call allow on_success on_transient_failure allow_entry failure_entry
    state state_of text_eq update calls_for
half_open_refuses_example =
    half_open_refuses breaker (λ j. refl) (omega arith) east outage ((east, asks 1_000_000) ∷ [])
      2_000_000 refl (tt, tt)
