-- ===== src/Router/Tests.antt =====
-- A chat that fails over from one provider to another, and the theorems on chats there.
use goatrouter.Circuit.{
  CircuitBreaker, new_breaker, opened, allow, allow_entry, on_transient_failure, state, half_open,
}
use goatrouter.Common.{
  ℕ, zero, suc, ◌≡◌, refl, true, false, Option, none, some, List, [], ◌∷◌, arith, Text, codes,
  text_eq, text_lt, All, update,
}
use goatrouter.Economics.{local, is_free_economics}
use goatrouter.Errors.{ok}
use goatrouter.Model.{
  is_model_char, is_model_id, includes, assert_model_id, ends_with_star, drop_last,
  assert_model_pattern, matches_model_pattern,
}
use goatrouter.Route.{Route}
use goatrouter.Router.{
  chat, chat_loop, round, gate_candidate, try_candidate, catch_failure, complete, route_candidates,
  route_eligible, start,
}
use goatrouter.Router.Types.{
  Provider, World, Attempt, responds, throws, Finish, answered, rethrown, direct, done,
  is_failover_code, effective_proxy_id,
}
use goatrouter.Router.Lawful.{Lawful, chat-Lawful}
use goatrouter.Router.Failover.{Explains, chat-Explains}
use goatrouter.Router.Telemetry.{IsReported, chat-IsReported}
use goatrouter.Router.LostProbe.{lost_probe}
use goatrouter.Selection.{
  goes_before, sort, matching, resolve_candidates, is_free_candidate, filter_free_candidates,
}

abbrev pub model : Text
model = codes "m1"

abbrev route_to : Text → Text → ℕ → Route
route_to id provider priority = record {
  id = id;
  model = model;
  provider_id = provider;
  proxy_id = none;
  force_direct = false;
  free_only = true;
  priority = priority;
  enabled = true;
  request_timeout_ms = 60_000;
}

abbrev pub first_route : Route
first_route = route_to (codes "r1") (codes "east") 200

abbrev pub second_route : Route
second_route = route_to (codes "r2") (codes "west") 100

abbrev pub routes : List Route
routes = second_route ∷ first_route ∷ []

abbrev provider_at : ℕ → Text → Option Provider
provider_at n id = some (record { id = id; enabled = true; proxy_id = some (codes "tor") })

-- The provider tried first limits the rate, the other answers 42.
abbrev answers : ℕ → Route → Provider → Option Text → Attempt ℕ
answers zero route provider proxy = throws (some "rate_limited")
answers (suc n) route provider proxy = responds 42

abbrev pub world : World ℕ
world = record {
  economics_at_first = λ r. some local;
  economics = λ n r. some local;
  provider = provider_at;
  gate_clock = λ n. 50_000;
  failure_clock = λ n. 50_001;
  send = answers;
  meanwhile = λ n b. b;
}

abbrev pub breaker : CircuitBreaker
unfolding new_breaker
breaker = new_breaker none none

pub routes_candidates : resolve_candidates routes model ≡ ok (first_route ∷ second_route ∷ [])
unfolding resolve_candidates matching sort goes_before matches_model_pattern assert_model_pattern
    assert_model_id is_model_id is_model_char includes ends_with_star drop_last text_eq text_lt
routes_candidates = refl

chat_fails_over :
    (chat world breaker routes model).ending
    ≡ answered (record {
      response = 42;
      route_id = codes "r2";
      provider_id = codes "west";
      proxy = some (codes "tor");
      attempts = 2;
    })
unfolding chat chat_loop round gate_candidate try_candidate catch_failure complete route_candidates
    route_eligible resolve_candidates matching sort goes_before matches_model_pattern
    assert_model_pattern assert_model_id is_model_id is_model_char includes ends_with_star drop_last
    text_eq text_lt new_breaker allow allow_entry is_free_candidate is_free_economics
    filter_free_candidates is_failover_code effective_proxy_id on_transient_failure update
chat_fails_over = refl

chat-Lawful_example :
    All (Lawful world routes model) (chat world breaker routes model).progress.sent
chat-Lawful_example = chat-Lawful world breaker routes model

chat-Explains_example :
    Explains world
      (chat world breaker routes model).ending
      (chat world breaker routes model).progress.sent
chat-Explains_example = chat-Explains world breaker routes model

chat-IsReported_example : IsReported (chat world breaker routes model)
chat-IsReported_example =
    chat-IsReported world breaker routes model (first_route ∷ second_route ∷ []) routes_candidates

-- A provider whose credential was revoked while its circuit was open.
abbrev revoked : World ℕ
revoked = record world { send = λ n route provider proxy. throws (some "auth_failed") }

abbrev pub tripped : CircuitBreaker
unfolding new_breaker
tripped = record breaker { by_provider = λ id. some (opened 10_000) }

lost_probe_example :
    (f : Finish ℕ) × (round revoked direct 0 first_route (start tripped) ≡ done f)
    × (f.ending ≡ rethrown (some "auth_failed"))
    × (state f.progress.breaker (codes "east") ≡ half_open)
    × ((now : ℕ) → (allow f.progress.breaker (codes "east") now).1 ≡ false)
unfolding new_breaker is_free_candidate is_free_economics is_failover_code
lost_probe_example =
    lost_probe revoked direct 0 10_000 first_route
      (record { id = codes "east"; enabled = true; proxy_id = some (codes "tor") })
      (some "auth_failed") (start tripped) refl refl refl refl (omega arith) (λ b. refl) refl refl
