-- ===== src/Router/Stream.antt =====
-- packages/router/src/router.ts: the routing of one streamed chat request, `chatStream`.
-- What an attempt opens is a `Delivery`: the chunks that the consumer receives, and how the stream
-- ends. The tear-down of the upstream in the last `finally` is left out.
pub mod Rounds
pub mod Lawful
pub mod Commit
pub mod Telemetry
pub mod LostProbe
mod Tests
use Prim.Native.String.{String}
use goatrouter.Circuit.{CircuitBreaker, allow, on_success}
use goatrouter.Common.{
  ℕ, suc, Bool, not, ◌&&◌, Option, none, some, List, [], ◌∷◌, ◌++◌, Text, ltb, if◌then◌else◌, map,
}
use goatrouter.Errors.{
  ok, err, RouterError, RouterErrorCode, router_error, no_route, no_free_route, all_routes_failed,
}
use goatrouter.Route.{Route}
use goatrouter.Router.{handoff, note_failure, fail_over, launch, start, base_mode}
use goatrouter.Router.Types.{
  World, Provider, responds, throws, Mode, direct, failover, Progress, request_refused,
  request_failed, request_completed, provider_attempted, of_router, of_upstream, category, mode_of,
  target, emit, skip, effective_proxy_id, is_failover_code,
}
use goatrouter.Selection.{resolve_candidates, is_free_candidate, filter_free_candidates}

-- The stream is read to its end, throws an error of this code, or is left by its consumer.
pub data Close : Type 0 where
  delivered abandoned : Close
  breaks : Option String → Close

pub record Delivery (C : Type 0) : Type 0 where
  pub chunks : List C
  pub close : Close

-- `RoutedChatChunk`.
pub record RoutedChunk (C : Type 0) : Type 0 where
  pub chunk : C
  pub route_id : Text
  pub provider_id : Text
  pub proxy : Option Text
  pub attempts : ℕ

-- Besides what a buffered chat meets: whether the signal is aborted when the n-th candidate fails
-- to open, and what other requests do to the breaker while its stream is delivered.
pub record StreamWorld (C : Type 0) : Type 0 where
  pub world : World (Delivery C)
  pub signal_aborted : ℕ → Bool
  pub while_streaming : ℕ → CircuitBreaker → CircuitBreaker

-- `served` once a stream is open; before that the errors of a buffered chat.
pub data StreamEnding : Type 0 where
  served : Close → StreamEnding
  stopped : RouterError → StreamEnding
  unopened : Option String → StreamEnding
  none_tried : ℕ → StreamEnding

pub record StreamFinish (C : Type 0) : Type 0 where
  pub received : List (RoutedChunk C)
  pub ending : StreamEnding
  pub progress : Progress

pub data StreamRound (C : Type 0) : Type 0 where
  onward : Progress → StreamRound C
  final : StreamFinish C → StreamRound C

abbrev pub tag : {C : Type 0} → Route → Provider → ℕ → C → RoutedChunk C
tag route provider attempts chunk = record {
  chunk = chunk;
  route_id = route.id;
  provider_id = provider.id;
  proxy = effective_proxy_id route provider;
  attempts = attempts;
}

-- A generator that throws before its first chunk.
abbrev pub fruitless : {C : Type 0} → StreamEnding → Progress → StreamFinish C
fruitless ending p = record { received = []; ending = ending; progress = p }

module _ {C : Type 0} (v : StreamWorld C) (base : Mode) where
  -- The events past the opening.
  abbrev pub announce : Route → Provider → Progress → Progress
  announce route provider p = emit p (
      handoff v.world base route provider p
      ++ provider_attempted (target route provider) (mode_of base p.attempts) p.attempts ∷ [])

  -- The breaker as it is when the stream ends.
  abbrev pub stream_on : ℕ → Progress → Progress
  stream_on n p = record p { breaker = v.while_streaming n p.breaker }

  unfoldable pub close_stream : Route → Provider → Close → Progress → Progress
  close_stream route provider delivered p =
      emit (record p { breaker = on_success p.breaker provider.id })
        (request_completed (target route provider) (mode_of base p.attempts) p.attempts ∷ [])
  close_stream route provider (breaks code) p = emit p (
      request_failed (target route provider) (mode_of base p.attempts) (category code) p.attempts
      ∷ [])
  close_stream route provider abandoned p = p

  unfoldable pub deliver : ℕ → Route → Provider → Delivery C → Progress → StreamFinish C
  unfolding close_stream
  deliver n route provider delivery p = record {
    received = map (tag route provider p.attempts) delivery.chunks;
    ending = served delivery.close;
    progress = close_stream route provider delivery.close (stream_on n (announce route provider p));
  }

  abbrev pub give_up_opening : Route → Provider → Option String → Progress → StreamFinish C
  give_up_opening route provider code p = fruitless (unopened code) (
      emit (note_failure v.world base route provider code p) (
        request_failed (target route provider) (mode_of base p.attempts) (category code) p.attempts
        ∷ []))

  -- The `catch` of an opening.
  unfoldable pub catch_opening : ℕ → Route → Provider → Option String → Progress → StreamRound C
  catch_opening n route provider code p =
      if not (v.signal_aborted n) && is_failover_code code
      then onward (fail_over v.world base n route provider code p)
      else final (give_up_opening route provider code p)

  -- An attempt that the breaker let through.
  unfoldable pub open_candidate : ℕ → Route → Provider → CircuitBreaker → Progress → StreamRound C
  unfolding deliver
  open_candidate n route provider gate p =
      elim (v.world.send n route provider (effective_proxy_id route provider)) [
        | responds delivery ↦
            final (deliver n route provider delivery (launch v.world base n route provider gate p))
        | throws code ↦
            catch_opening n route provider code (launch v.world base n route provider gate p)
      ]

  abbrev pub stream_recheck : Progress → StreamFinish C
  stream_recheck p =
      fruitless (stopped (router_error no_free_route "chat-stream-free-only-recheck")) (
        emit p (
          request_refused (if ltb 0 p.attempts then failover else base) (of_router no_free_route)
            p.attempts
          ∷ []))

  -- The round at a provider that is enabled.
  unfoldable pub stream_gate : ℕ → Route → Provider → Progress → StreamRound C
  stream_gate n route provider p =
      if route.free_only && not (is_free_candidate (v.world.economics n route))
      then final (stream_recheck p)
      else (if (allow p.breaker provider.id (v.world.gate_clock n)).1
          then open_candidate n route provider p.breaker p
          else onward (
              skip (record p { breaker = (allow p.breaker provider.id (v.world.gate_clock n)).0 })))

  unfoldable pub stream_round : ℕ → Route → Progress → StreamRound C
  stream_round n route p = elim (v.world.provider n route.provider_id) [
    | none ↦ onward (skip p)
    | some provider ↦ if provider.enabled then stream_gate n route provider p else onward (skip p)
  ]

  -- After the last candidate.
  unfoldable pub stream_exhausted : Progress → StreamFinish C
  stream_exhausted p = elim p.last_failure [
    | some code ↦ fruitless (unopened code) (
        emit p (
          request_refused (mode_of base p.attempts)
            (elim code [ none ↦ of_router all_routes_failed | some c ↦ of_upstream c ]) p.attempts
          ∷ []))
    | none ↦
        fruitless (none_tried p.skipped)
          (emit p (request_refused base (of_router all_routes_failed) p.attempts ∷ []))
  ]

  unfoldable pub stream_loop : ℕ → List Route → Progress → StreamFinish C
  stream_loop n [] p = stream_exhausted p
  stream_loop n (route ∷ rest) p = elim (stream_round n route p) [
    | onward q ↦ stream_loop (suc n) rest q
    | final finish ↦ finish
  ]

unfoldable pub stream_refuse :
    {C : Type 0} → CircuitBreaker → RouterErrorCode → String → StreamFinish C
stream_refuse breaker code stage =
    fruitless (stopped (router_error code stage))
      (emit (start breaker) (request_refused direct (of_router code) 0 ∷ []))

module _ {C : Type 0} (v : StreamWorld C) (breaker : CircuitBreaker) where
  -- Past the free-only filter.
  unfoldable pub stream_eligible : List Route → StreamFinish C
  unfolding stream_refuse
  stream_eligible [] = stream_refuse breaker no_free_route "chat-stream-free-only"
  stream_eligible (r ∷ rest) = stream_loop v (base_mode (r ∷ rest)) 0 (r ∷ rest) (start breaker)

  -- Past the candidates.
  unfoldable pub stream_candidates : List Route → StreamFinish C
  unfolding stream_refuse
  stream_candidates [] = stream_refuse breaker no_route "chat-stream-select"
  stream_candidates (r ∷ rest) =
      stream_eligible (filter_free_candidates (r ∷ rest) v.world.economics_at_first)

  -- `chatStream` for the model of a request that parsed, over the rows of the repository, for a
  -- consumer that asks for the first chunk.
  unfoldable pub chat_stream : List Route → Text → StreamFinish C
  chat_stream routes model = elim (resolve_candidates routes model) [
    | err e ↦ fruitless (stopped e) (start breaker)
    | ok candidates ↦ stream_candidates candidates
  ]
