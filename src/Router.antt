-- ===== src/Router.antt =====
-- packages/router/src/router.ts: the routing of one buffered chat request.
-- What the request meets outside, the provider manager, the clock, the network and the other
-- requests in flight, is a `World` that answers anew at each candidate. The loop keeps a `Progress`.
-- Latencies, time stamps, the request id and the log lines, which repeat the events, are left out;
-- so is the recorder's failure, which the source swallows.
pub mod Types
pub mod Rounds
pub mod Lawful
pub mod Failover
pub mod Telemetry
pub mod LostProbe
pub mod Stream
mod Tests
use Prim.Native.String.{String}
use text.Mathlib.Text.{◌==◌ as str_eq}
use goatrouter.Circuit.{CircuitBreaker, allow, on_success, on_transient_failure}
use goatrouter.Common.{
  ℕ, zero, suc, ◌+◌, Bool, true, false, not, ◌&&◌, ◌||◌, Option, none, some, List, [], ◌∷◌, ◌++◌,
  Text, leb, ltb, if◌then◌else◌, length,
}
use goatrouter.Economics.{ModelEconomics}
use goatrouter.Errors.{
  Result, ok, err, RouterError, RouterErrorCode, router_error, no_route, no_free_route,
  all_routes_failed,
}
use goatrouter.Route.{Route}
use goatrouter.Selection.{resolve_candidates, is_free_candidate, filter_free_candidates}
use Types.{
  Event, Finish, Mode, Progress, Provider, Round, World, all_skipped, answered, combo, direct, done,
  effective_proxy_id, emit, failover, failover_started, is_failover_code, mode_of, next, of_router,
  of_upstream, provider_attempted, provider_failed, category, refused, request_completed,
  request_failed, request_refused, responds, rethrown, skip, target, throws,
}

module _ {R : Type 0} (w : World R) (base : Mode) where
  -- `failover.started`, when an earlier attempt failed.
  abbrev pub handoff : Route → Provider → Progress → List Event
  handoff route provider p =
      if ltb 1 p.attempts
      then failover_started (target route provider) (mode_of base p.attempts) p.attempts ∷ []
      else []

  -- Past a successful attempt.
  unfoldable pub complete : Route → Provider → R → Progress → Finish R
  complete route provider response p = record {
    ending = answered (record {
      response = response;
      route_id = route.id;
      provider_id = provider.id;
      proxy = effective_proxy_id route provider;
      attempts = p.attempts;
    });
    progress =
        emit (record p { breaker = on_success p.breaker provider.id })
          (handoff route provider p
            ++ (provider_attempted (target route provider) (mode_of base p.attempts) p.attempts
                ∷ request_completed (target route provider) (mode_of base p.attempts) p.attempts
                ∷ []));
  }

  -- `provider.failed`, and the failure to rethrow at the end.
  abbrev pub note_failure : Route → Provider → Option String → Progress → Progress
  note_failure route provider code p =
      emit (record p { last_failure = some code })
        (provider_failed (target route provider) (mode_of base p.attempts) (category code)
            p.attempts
          ∷ [])

  -- A failure that the breaker counts, after which the next candidate is tried.
  abbrev pub fail_over : ℕ → Route → Provider → Option String → Progress → Progress
  fail_over n route provider code p = record (note_failure route provider code p) {
    breaker = on_transient_failure p.breaker provider.id (w.failure_clock n);
  }

  -- A failure that is rethrown at once.
  abbrev pub give_up : Route → Provider → Option String → Progress → Finish R
  give_up route provider code p = record {
    ending = rethrown code;
    progress = emit (note_failure route provider code p) (
        request_failed (target route provider) (mode_of base p.attempts) (category code) p.attempts
        ∷ []);
  }

  -- The `catch` of an attempt.
  unfoldable pub catch_failure : ℕ → Route → Provider → Option String → Progress → Round R
  catch_failure n route provider code p =
      if is_failover_code code
      then next (fail_over n route provider code p)
      else done (give_up route provider code p)

  -- `attempts += 1`, and the breaker as it is when the attempt ends.
  abbrev pub launch : ℕ → Route → Provider → CircuitBreaker → Progress → Progress
  launch n route provider gate p = record p {
    attempts = p.attempts + 1;
    breaker = w.meanwhile n (allow gate provider.id (w.gate_clock n)).0;
    sent =
        p.sent
        ++ record {
          turn = n;
          route = route;
          provider = provider;
          proxy = effective_proxy_id route provider;
          gate = gate;
        }
          ∷ [];
  }

  -- An attempt that the breaker let through.
  unfoldable pub try_candidate : ℕ → Route → Provider → CircuitBreaker → Progress → Round R
  try_candidate n route provider gate p =
      elim (w.send n route provider (effective_proxy_id route provider)) [
        | responds response ↦
            done (complete route provider response (launch n route provider gate p))
        | throws code ↦ catch_failure n route provider code (launch n route provider gate p)
      ]

  -- The round at a provider that is enabled.
  unfoldable pub gate_candidate : ℕ → Route → Provider → Progress → Round R
  gate_candidate n route provider p =
      if route.free_only && not (is_free_candidate (w.economics n route))
      then done (record {
        ending = refused (router_error no_free_route "chat-free-only-recheck");
        progress = emit p (
            request_refused (if ltb 0 p.attempts then failover else base) (of_router no_free_route)
              p.attempts
            ∷ []);
      })
      else (if (allow p.breaker provider.id (w.gate_clock n)).1
          then try_candidate n route provider p.breaker p
          else next
              (skip (record p { breaker = (allow p.breaker provider.id (w.gate_clock n)).0 })))

  unfoldable pub round : ℕ → Route → Progress → Round R
  round n route p = elim (w.provider n route.provider_id) [
    | none ↦ next (skip p)
    | some provider ↦ if provider.enabled then gate_candidate n route provider p else next (skip p)
  ]

  -- After the last candidate.
  unfoldable pub exhausted : Progress → Finish R
  exhausted p = elim p.last_failure [
    | some code ↦ record {
      ending = rethrown code;
      progress = emit p (
          request_refused (mode_of base p.attempts)
            (elim code [ none ↦ of_router all_routes_failed | some c ↦ of_upstream c ]) p.attempts
          ∷ []);
    }
    | none ↦ record {
      ending = all_skipped p.skipped;
      progress = emit p (request_refused base (of_router all_routes_failed) p.attempts ∷ []);
    }
  ]

  unfoldable pub chat_loop : ℕ → List Route → Progress → Finish R
  chat_loop n [] p = exhausted p
  chat_loop n (route ∷ rest) p = elim (round n route p) [
    | next q ↦ chat_loop (suc n) rest q
    | done finish ↦ finish
  ]

abbrev pub start : CircuitBreaker → Progress
start breaker = record {
  attempts = 0;
  skipped = 0;
  last_failure = none;
  breaker = breaker;
  events = [];
  sent = [];
}

-- `eligible.length >= 2 ? "combo" : "direct"`.
abbrev pub base_mode : List Route → Mode
base_mode eligible = if leb 2 (length eligible) then combo else direct

unfoldable pub refuse : {R : Type 0} → CircuitBreaker → RouterErrorCode → String → Finish R
refuse breaker code stage = record {
  ending = refused (router_error code stage);
  progress = emit (start breaker) (request_refused direct (of_router code) 0 ∷ []);
}

module _ {R : Type 0} (w : World R) (breaker : CircuitBreaker) where
  -- Past the free-only filter.
  unfoldable pub route_eligible : List Route → Finish R
  unfolding refuse
  route_eligible [] = refuse breaker no_free_route "chat-free-only"
  route_eligible (r ∷ rest) = chat_loop w (base_mode (r ∷ rest)) 0 (r ∷ rest) (start breaker)

  -- Past the candidates.
  unfoldable pub route_candidates : List Route → Finish R
  unfolding refuse
  route_candidates [] = refuse breaker no_route "chat-select"
  route_candidates (r ∷ rest) =
      route_eligible (filter_free_candidates (r ∷ rest) w.economics_at_first)

  -- `chat` for the model of a request that parsed, over the rows of the repository. An error of
  -- `resolveCandidates` ends it with no event.
  unfoldable pub chat : List Route → Text → Finish R
  chat routes model = elim (resolve_candidates routes model) [
    | err e ↦ record { ending = refused e; progress = start breaker }
    | ok candidates ↦ route_candidates candidates
  ]
