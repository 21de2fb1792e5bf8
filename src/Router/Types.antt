-- ===== src/Router/Types.antt =====
-- packages/router/src/router.ts: what a chat meets, keeps, emits and returns, and the pure helpers.
use Prim.Native.String.{String}
use text.Mathlib.Text.{◌==◌ as str_eq}
use goatrouter.Circuit.{CircuitBreaker}
use goatrouter.Common.{
  ℕ, ◌+◌, Bool, false, ◌||◌, Option, none, some, List, ◌++◌, Text, ltb, if◌then◌else◌,
}
use goatrouter.Economics.{ModelEconomics}
use goatrouter.Errors.{RouterError, RouterErrorCode}
use goatrouter.Route.{Route}

-- What the loop reads of a `ProviderView`.
pub record Provider : Type 0 where
  pub id : Text
  pub enabled : Bool
  pub proxy_id : Option Text

-- How an attempt ends: with a response, or with an error of the code that `codeOf` reads.
pub data Attempt (R : Type 0) : Type 0 where
  responds : R → Attempt R
  throws : Option String → Attempt R

pub record World (R : Type 0) : Type 0 where
  -- `providers.modelEconomics` before the loop, and at the n-th candidate.
  pub economics_at_first : Route → Option ModelEconomics
  pub economics : ℕ → Route → Option ModelEconomics
  -- `providers.getProvider` at the n-th candidate.
  pub provider : ℕ → Text → Option Provider
  -- The clock of the breaker at the gate and at a failure.
  pub gate_clock : ℕ → ℕ
  pub failure_clock : ℕ → ℕ
  -- The attempt through a proxy, or directly; and what other requests do to the breaker during it.
  pub send : ℕ → Route → Provider → Option Text → Attempt R
  pub meanwhile : ℕ → CircuitBreaker → CircuitBreaker

pub data Mode : Type 0 where
  direct combo failover : Mode

-- The route, the provider and the proxy that an event names.
pub record Target : Type 0 where
  pub route_id : Text
  pub provider_id : Text
  pub proxy : Option Text

-- `failureCategory`.
pub data Category : Type 0 where
  of_router : RouterErrorCode → Category
  of_upstream : String → Category
  unknown_error : Category

-- The events of the recorder, with their mode and the attempts so far.
pub data Event : Type 0 where
  request_refused : Mode → Category → ℕ → Event
  request_failed : Target → Mode → Category → ℕ → Event
  request_completed failover_started provider_attempted : Target → Mode → ℕ → Event
  provider_failed : Target → Mode → Category → ℕ → Event

-- A call of `attempt`, with the breaker that let it through.
pub record Sent : Type 0 where
  pub turn : ℕ
  pub route : Route
  pub provider : Provider
  pub proxy : Option Text
  pub gate : CircuitBreaker

pub record Progress : Type 0 where
  pub attempts : ℕ
  pub skipped : ℕ
  pub last_failure : Option (Option String)
  pub breaker : CircuitBreaker
  pub events : List Event
  pub sent : List Sent

pub record ChatResult (R : Type 0) : Type 0 where
  pub response : R
  pub route_id : Text
  pub provider_id : Text
  pub proxy : Option Text
  pub attempts : ℕ

-- How a chat ends; `all_skipped n` is `RouterError("all_routes_failed", "chat-skipped-n")`.
pub data Ending (R : Type 0) : Type 0 where
  answered : ChatResult R → Ending R
  refused : RouterError → Ending R
  rethrown : Option String → Ending R
  all_skipped : ℕ → Ending R

pub record Finish (R : Type 0) : Type 0 where
  pub ending : Ending R
  pub progress : Progress

-- `FAILOVER_CODES.has(code)`, false for no code.
unfoldable pub is_failover_code : Option String → Bool
is_failover_code none = false
is_failover_code (some code) =
    str_eq code "unreachable" || (str_eq code "rate_limited" || str_eq code "upstream_error")

unfoldable pub effective_proxy_id : Route → Provider → Option Text
effective_proxy_id route provider =
    if route.force_direct
    then none
    else elim route.proxy_id [ none ↦ provider.proxy_id | some proxy ↦ some proxy ]

abbrev pub category : Option String → Category
category none = unknown_error
category (some code) = of_upstream code

abbrev pub mode_of : Mode → ℕ → Mode
mode_of base attempts = if ltb 1 attempts then failover else base

abbrev pub target : Route → Provider → Target
target route provider = record {
  route_id = route.id;
  provider_id = provider.id;
  proxy = effective_proxy_id route provider;
}

abbrev pub emit : Progress → List Event → Progress
emit p es = record p { events = p.events ++ es }

-- `skipped += 1; continue`.
abbrev pub skip : Progress → Progress
skip p = record p { skipped = p.skipped + 1 }

-- One round of the loop goes on or ends the request.
pub data Round (R : Type 0) : Type 0 where
  next : Progress → Round R
  done : Finish R → Round R
