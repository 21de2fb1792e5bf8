-- ===== src/Router/Stream/Tests.antt =====
-- A streamed chat that fails over before its first chunk, one that its consumer leaves, and the
-- theorems on streams there.
use goatrouter.Circuit.{new_breaker, allow, state, half_open, on_transient_failure}
use goatrouter.Circuit.{allow_entry}
use goatrouter.Common.{
  ℕ, zero, suc, ◌≡◌, ◌≢◌, refl, true, false, Option, some, [], ◌∷◌, arith, Text, codes, text_eq,
  text_lt, All, update, map,
}
use goatrouter.Economics.{is_free_economics}
use goatrouter.Model.{
  is_model_char, is_model_id, includes, assert_model_id, ends_with_star, drop_last,
  assert_model_pattern, matches_model_pattern,
}
use goatrouter.Route.{Route}
use goatrouter.Router.{start}
use goatrouter.Router.Types.{
  Provider, Attempt, responds, throws, direct, is_failover_code, effective_proxy_id,
}
use goatrouter.Router.Lawful.{Lawful}
use goatrouter.Router.Tests.{
  model, first_route, second_route, routes, world, breaker, tripped, routes_candidates,
}
use goatrouter.Router.Stream.{
  Delivery, delivered, abandoned, StreamWorld, StreamFinish, served, tag, final, close_stream,
  deliver, catch_opening, open_candidate, stream_gate, stream_round, stream_loop, stream_eligible,
  stream_candidates, chat_stream,
}
use goatrouter.Router.Stream.Lawful.{chat_stream-Lawful}
use goatrouter.Router.Stream.Commit.{Accounts, chat_stream-Accounts}
use goatrouter.Router.Stream.Telemetry.{IsTold, chat_stream-IsTold}
use goatrouter.Router.Stream.LostProbe.{lost_stream_probe}
use goatrouter.Selection.{
  goes_before, sort, matching, resolve_candidates, is_free_candidate, filter_free_candidates,
}

-- The provider tried first cannot be reached, the other streams 1, 2 and 3.
abbrev opens : ℕ → Route → Provider → Option Text → Attempt (Delivery ℕ)
opens zero route provider proxy = throws (some "unreachable")
opens (suc n) route provider proxy =
    responds (record { chunks = 1 ∷ 2 ∷ 3 ∷ []; close = delivered })

abbrev streams : StreamWorld ℕ
streams = record {
  world = record {
    economics_at_first = world.economics_at_first;
    economics = world.economics;
    provider = world.provider;
    gate_clock = world.gate_clock;
    failure_clock = world.failure_clock;
    send = opens;
    meanwhile = λ n b. b;
  };
  signal_aborted = λ n. false;
  while_streaming = λ n b. b;
}

chat_stream_fails_over :
    (chat_stream streams breaker routes model).received
    ≡ map
        (tag second_route
          (record { id = codes "west"; enabled = true; proxy_id = some (codes "tor") })
          2)
        (1 ∷ 2 ∷ 3 ∷ [])
unfolding chat_stream stream_loop stream_round stream_gate open_candidate catch_opening deliver
    close_stream stream_candidates stream_eligible resolve_candidates matching sort goes_before
    matches_model_pattern assert_model_pattern assert_model_id is_model_id is_model_char includes
    ends_with_star drop_last text_eq text_lt new_breaker allow allow_entry is_free_candidate
    is_free_economics filter_free_candidates is_failover_code effective_proxy_id
    on_transient_failure update
chat_stream_fails_over = refl

chat_stream-Lawful_example :
    All (Lawful streams.world routes model) (chat_stream streams breaker routes model).progress.sent
chat_stream-Lawful_example = chat_stream-Lawful streams breaker routes model

chat_stream-Accounts_example :
    Accounts streams
      (chat_stream streams breaker routes model)
      (chat_stream streams breaker routes model).ending
chat_stream-Accounts_example = chat_stream-Accounts streams breaker routes model

chat_stream-IsTold_example :
    IsTold
      (chat_stream streams breaker routes model)
      (chat_stream streams breaker routes model).ending
chat_stream-IsTold_example =
    chat_stream-IsTold streams breaker routes model (first_route ∷ second_route ∷ [])
      routes_candidates

-- A consumer that leaves after the first chunk.
abbrev left_early : Delivery ℕ
left_early = record { chunks = 1 ∷ []; close = abandoned }

abbrev leaves : StreamWorld ℕ
leaves = record streams {
  world = record streams.world { send = λ n route provider proxy. responds left_early };
}

left_unfinished : abandoned ≢ delivered
left_unfinished h = cc

lost_stream_probe_example :
    (f : StreamFinish ℕ) × (stream_round leaves direct 0 first_route (start tripped) ≡ final f)
    × (f.ending ≡ served abandoned)
    × (state f.progress.breaker (codes "east") ≡ half_open)
    × ((now : ℕ) → (allow f.progress.breaker (codes "east") now).1 ≡ false)
unfolding new_breaker is_free_candidate is_free_economics
lost_stream_probe_example =
    lost_stream_probe leaves direct 0 10_000 first_route
      (record { id = codes "east"; enabled = true; proxy_id = some (codes "tor") }) left_early
      (start tripped) refl refl refl refl (omega arith) (λ b. refl) (λ b. refl) refl left_unfinished
