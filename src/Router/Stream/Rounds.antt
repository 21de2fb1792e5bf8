-- ===== src/Router/Stream/Rounds.antt =====
-- packages/router/src/router.ts: rules for the rounds of the stream loop and for the whole stream.
use mathlib.Core.List.{Mem, mem-cons_self, mem-cons_of_mem}
use goatrouter.Circuit.{CircuitBreaker, allow}
use goatrouter.Common.{
  ℕ, suc, ◌≡◌, refl, Bool, true, false, not, ◌&&◌, Option, some, List, [], ◌∷◌, Text, inl, inr,
  Bool-cases, Option-cases,
}
use goatrouter.Errors.{Result, RouterError, ok, err, no_route, no_free_route}
use goatrouter.Route.{Route}
use goatrouter.Router.{fail_over, launch, start, base_mode}
use goatrouter.Router.Types.{
  Provider, Attempt, responds, throws, Mode, Progress, is_failover_code, skip, effective_proxy_id,
}
use goatrouter.Router.Rounds.{may_not_spend}
use goatrouter.Router.Stream.{
  Close, delivered, abandoned, breaks, close_stream, Delivery, StreamWorld, StreamFinish,
  StreamRound, onward, final, stopped, fruitless, deliver, give_up_opening, catch_opening,
  open_candidate, stream_recheck, stream_gate, stream_round, stream_exhausted, stream_loop,
  stream_refuse, stream_eligible, stream_candidates, chat_stream,
}
use goatrouter.Selection.{filter_free_candidates, resolve_candidates}
use Prim.Native.String.{String}

-- A round goes on from a progress of which one predicate holds, or ends with a finish of which
-- another holds.
abbrev pub StreamKeeps :
    {C : Type 0} → (Progress → Type 0) → (StreamFinish C → Type 0) → StreamRound C → Type 0
StreamKeeps P Q (onward p) = P p
StreamKeeps P Q (final f) = Q f

-- Another candidate is tried after an opening that failed so.
abbrev pub fails_over : {C : Type 0} → StreamWorld C → ℕ → Option String → Bool
fails_over v n code = not (v.signal_aborted n) && is_failover_code code

-- Closing a stream makes no attempt.
pub close_keeps_sent :
    {C : Type 0} (v : StreamWorld C) (base : Mode) (route : Route) (provider : Provider)
    (close : Close) (p : Progress)
    → (close_stream v base route provider close p).sent ≡ p.sent
unfolding close_stream
close_keeps_sent v base route provider delivered p = refl
close_keeps_sent v base route provider abandoned p = refl
close_keeps_sent v base route provider (breaks code) p = refl

module _ {C : Type 0} (v : StreamWorld C) (base : Mode) where
  module _ (P : Progress → Type 0) (Q : StreamFinish C → Type 0) where
    pub stream_round_rule :
        (n : ℕ) (route : Route) (p : Progress)
        → P (skip p)
        → Q (stream_recheck v base p)
        → ((b : CircuitBreaker) → P (skip (record p { breaker = b })))
        → ((provider : Provider)
            → v.world.provider n route.provider_id ≡ some provider
            → provider.enabled ≡ true
            → may_not_spend v.world base n route ≡ false
            → (allow p.breaker provider.id (v.world.gate_clock n)).1 ≡ true
            → StreamKeeps P Q (open_candidate v base n route provider p.breaker p))
        → StreamKeeps P Q (stream_round v base n route p)
    unfolding stream_round stream_gate
    stream_round_rule n route p skipped paid closed tried =
        elim (Option-cases (v.world.provider n route.provider_id)) [
          | inl absent ↦ rw (absent, stream_round) skipped
          | inr (provider, known) ↦ elim (Bool-cases provider.enabled) [
            | inr off ↦ rw (known, stream_round) (simp off skipped)
            | inl on ↦ elim (Bool-cases (may_not_spend v.world base n route)) [
              | inl spends ↦ rw (known, stream_round) (simp on (rw spends paid))
              | inr free ↦
                  elim (Bool-cases (allow p.breaker provider.id (v.world.gate_clock n)).1) [
                    | inl admitted ↦
                        rw (known, stream_round)
                          (simp on (rw (free, admitted) (tried provider known on free admitted)))
                    | inr barred ↦ rw (known, stream_round) (simp on (rw (free, barred) (closed _)))
                  ]
            ]
          ]
        ]

    pub open_rule :
        (n : ℕ) (route : Route) (provider : Provider) (p : Progress)
        → ((d : Delivery C)
            → v.world.send n route provider (effective_proxy_id route provider) ≡ responds d
            → Q (
                deliver v base n route provider d
                  (launch v.world base n route provider p.breaker p)))
        → ((code : Option String)
            → v.world.send n route provider (effective_proxy_id route provider) ≡ throws code
            → fails_over v n code ≡ true
            → P (
                fail_over v.world base n route provider code
                  (launch v.world base n route provider p.breaker p)))
        → ((code : Option String)
            → v.world.send n route provider (effective_proxy_id route provider) ≡ throws code
            → fails_over v n code ≡ false
            → Q (
                give_up_opening v base route provider code
                  (launch v.world base n route provider p.breaker p)))
        → StreamKeeps P Q (open_candidate v base n route provider p.breaker p)
    unfolding open_candidate catch_opening
    open_rule n route provider p answered over up =
        go (v.world.send n route provider (effective_proxy_id route provider)) answered over up
      where
        after : Progress
        after = launch v.world base n route provider p.breaker p

        go :
            (a : Attempt (Delivery C))
            → ((d : Delivery C) → a ≡ responds d → Q (deliver v base n route provider d after))
            → ((code : Option String)
                → a ≡ throws code
                → fails_over v n code ≡ true
                → P (fail_over v.world base n route provider code after))
            → ((code : Option String)
                → a ≡ throws code
                → fails_over v n code ≡ false
                → Q (give_up_opening v base route provider code after))
            → StreamKeeps P Q (elim a [
              | responds d ↦ final (deliver v base n route provider d after)
              | throws code ↦ catch_opening v base n route provider code after
            ])
        go (responds d) h k l = h d refl
        go (throws code) h k l = elim (Bool-cases (fails_over v n code)) [
          | inl transient ↦ rw transient (k code refl transient)
          | inr fixed ↦ rw fixed (l code refl fixed)
        ]

    -- An invariant of the rounds holds at the end of the loop.
    pub stream_loop_rule :
        (all : List Route)
        → ((n : ℕ) (route : Route) (p : Progress)
            → Mem route all
            → P p
            → StreamKeeps P Q (stream_round v base n route p))
        → ((p : Progress) → P p → Q (stream_exhausted v base p))
        → (n : ℕ) (rest : List Route) (p : Progress) → ((r : Route) → Mem r rest → Mem r all)
        → P p
        → Q (stream_loop v base n rest p)
    unfolding stream_loop
    stream_loop_rule all step last n [] p within h = last p h
    stream_loop_rule all step last n (route ∷ rest) p within h =
        go (stream_round v base n route p) (step n route p (within route mem-cons_self) h) (λ q k.
          stream_loop_rule all step last (suc n) rest q (λ r m. within r (mem-cons_of_mem route m))
            k)
      where
        go :
            (r : StreamRound C)
            → StreamKeeps P Q r
            → ((q : Progress) → P q → Q (stream_loop v base (suc n) rest q))
            → Q (elim r [ onward q ↦ stream_loop v base (suc n) rest q | final finish ↦ finish ])
        go (onward q) k later = later q k
        go (final f) k later = k

module _ {C : Type 0} (v : StreamWorld C) (breaker : CircuitBreaker)
    (Q : StreamFinish C → Type 0) where
  pub stream_rule :
      (routes : List Route) (model : Text)
      → ((e : RouterError)
          → resolve_candidates routes model ≡ err e
          → Q (fruitless (stopped e) (start breaker)))
      → Q (stream_refuse breaker no_route "chat-stream-select")
      → Q (stream_refuse breaker no_free_route "chat-stream-free-only")
      → ((found : List Route) (r : Route) (rest : List Route)
          → resolve_candidates routes model ≡ ok found
          → filter_free_candidates found v.world.economics_at_first ≡ r ∷ rest
          → Q (stream_loop v (base_mode (r ∷ rest)) 0 (r ∷ rest) (start breaker)))
      → Q (chat_stream v breaker routes model)
  unfolding chat_stream stream_candidates stream_eligible
  stream_rule routes model invalid unrouted unfree looped =
      go (resolve_candidates routes model) invalid looped
    where
      split :
          (eligible : List Route)
          → ((r : Route) (rest : List Route)
              → eligible ≡ r ∷ rest
              → Q (stream_loop v (base_mode (r ∷ rest)) 0 (r ∷ rest) (start breaker)))
          → Q (stream_eligible v breaker eligible)
      split [] h = unfree
      split (r ∷ rest) h = h r rest refl

      routed :
          (found : List Route)
          → ((r : Route) (rest : List Route)
              → filter_free_candidates found v.world.economics_at_first ≡ r ∷ rest
              → Q (stream_loop v (base_mode (r ∷ rest)) 0 (r ∷ rest) (start breaker)))
          → Q (stream_candidates v breaker found)
      routed [] h = unrouted
      routed (r ∷ rest) h = split (filter_free_candidates (r ∷ rest) v.world.economics_at_first) h

      go :
          (o : Result (List Route))
          → ((e : RouterError) → o ≡ err e → Q (fruitless (stopped e) (start breaker)))
          → ((found : List Route) (r : Route) (rest : List Route)
              → o ≡ ok found
              → filter_free_candidates found v.world.economics_at_first ≡ r ∷ rest
              → Q (stream_loop v (base_mode (r ∷ rest)) 0 (r ∷ rest) (start breaker)))
          → Q (elim o [
            | err e ↦ fruitless (stopped e) (start breaker)
            | ok candidates ↦ stream_candidates v breaker candidates
          ])
      go (err e) k h = k e refl
      go (ok found) k h = routed found (λ r rest e. h found r rest refl e)
