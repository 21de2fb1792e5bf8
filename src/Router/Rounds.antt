-- ===== src/Router/Rounds.antt =====
-- packages/router/src/router.ts: rules for the rounds of the chat loop and for the whole chat.
use mathlib.Core.List.{Mem, mem-cons_self, mem-cons_of_mem}
use goatrouter.Circuit.{CircuitBreaker, allow}
use goatrouter.Common.{
  ℕ, suc, ◌≡◌, refl, Bool, true, false, not, ◌&&◌, Option, some, List, [], ◌∷◌, Text, inl, inr, ltb,
  if◌then◌else◌, Bool-cases, Option-cases,
}
use goatrouter.Errors.{Result, RouterError, ok, err, router_error, no_route, no_free_route}
use goatrouter.Route.{Route}
use goatrouter.Router.{
  complete, catch_failure, try_candidate, fail_over, give_up, launch, gate_candidate, round,
  exhausted, chat_loop, start, base_mode, refuse, route_eligible, route_candidates, chat,
}
use goatrouter.Router.Types.{
  Provider, World, Attempt, responds, throws, Mode, failover, of_router, request_refused, Progress,
  Finish, refused, Round, next, done, is_failover_code, emit, skip, effective_proxy_id,
}
use goatrouter.Selection.{is_free_candidate, filter_free_candidates, resolve_candidates}
use Prim.Native.String.{String}

-- A round goes on from a progress of which one predicate holds, or ends with a finish of which
-- another holds.
abbrev pub Keeps : {R : Type 0} → (Progress → Type 0) → (Finish R → Type 0) → Round R → Type 0
Keeps P Q (next p) = P p
Keeps P Q (done f) = Q f

module _ {R : Type 0} (w : World R) (base : Mode) where
  -- The finish of a free-only route whose model is found not to be free when its turn comes.
  abbrev pub recheck : Progress → Finish R
  recheck p = record {
    ending = refused (router_error no_free_route "chat-free-only-recheck");
    progress = emit p (
        request_refused (if ltb 0 p.attempts then failover else base) (of_router no_free_route)
          p.attempts
        ∷ []);
  }

  abbrev pub may_not_spend : ℕ → Route → Bool
  may_not_spend n route = route.free_only && not (is_free_candidate (w.economics n route))

  module _ (P : Progress → Type 0) (Q : Finish R → Type 0) where
    pub round_rule :
        (n : ℕ) (route : Route) (p : Progress)
        → P (skip p)
        → Q (recheck p)
        → ((b : CircuitBreaker) → P (skip (record p { breaker = b })))
        → ((provider : Provider)
            → w.provider n route.provider_id ≡ some provider
            → provider.enabled ≡ true
            → may_not_spend n route ≡ false
            → (allow p.breaker provider.id (w.gate_clock n)).1 ≡ true
            → Keeps P Q (try_candidate w base n route provider p.breaker p))
        → Keeps P Q (round w base n route p)
    unfolding round gate_candidate
    round_rule n route p skipped paid closed tried =
        elim (Option-cases (w.provider n route.provider_id)) [
          | inl absent ↦ rw (absent, round) skipped
          | inr (provider, known) ↦ elim (Bool-cases provider.enabled) [
            | inr off ↦ rw (known, round) (simp off skipped)
            | inl on ↦ elim (Bool-cases (may_not_spend n route)) [
              | inl spends ↦ rw (known, round) (simp on (rw spends paid))
              | inr free ↦ elim (Bool-cases (allow p.breaker provider.id (w.gate_clock n)).1) [
                | inl admitted ↦
                    rw (known, round)
                      (simp on (rw (free, admitted) (tried provider known on free admitted)))
                | inr barred ↦ rw (known, round) (simp on (rw (free, barred) (closed _)))
              ]
            ]
          ]
        ]

    pub try_rule :
        (n : ℕ) (route : Route) (provider : Provider) (p : Progress)
        → ((r : R)
            → w.send n route provider (effective_proxy_id route provider) ≡ responds r
            → Q (complete w base route provider r (launch w base n route provider p.breaker p)))
        → ((code : Option String)
            → w.send n route provider (effective_proxy_id route provider) ≡ throws code
            → is_failover_code code ≡ true
            → P (
                fail_over w base n route provider code
                  (launch w base n route provider p.breaker p)))
        → ((code : Option String)
            → w.send n route provider (effective_proxy_id route provider) ≡ throws code
            → is_failover_code code ≡ false
            → Q (give_up w base route provider code (launch w base n route provider p.breaker p)))
        → Keeps P Q (try_candidate w base n route provider p.breaker p)
    unfolding try_candidate catch_failure
    try_rule n route provider p answered over up =
        go (w.send n route provider (effective_proxy_id route provider)) answered over up
      where
        after : Progress
        after = launch w base n route provider p.breaker p

        go :
            (a : Attempt R)
            → ((r : R) → a ≡ responds r → Q (complete w base route provider r after))
            → ((code : Option String)
                → a ≡ throws code
                → is_failover_code code ≡ true
                → P (fail_over w base n route provider code after))
            → ((code : Option String)
                → a ≡ throws code
                → is_failover_code code ≡ false
                → Q (give_up w base route provider code after))
            → Keeps P Q (elim a [
              | responds r ↦ done (complete w base route provider r after)
              | throws code ↦ catch_failure w base n route provider code after
            ])
        go (responds r) h k l = h r refl
        go (throws code) h k l = elim (Bool-cases (is_failover_code code)) [
          | inl transient ↦ rw transient (k code refl transient)
          | inr fixed ↦ rw fixed (l code refl fixed)
        ]

    -- An invariant of the rounds holds at the end of the loop.
    pub loop_rule :
        (all : List Route)
        → ((n : ℕ) (route : Route) (p : Progress)
            → Mem route all
            → P p
            → Keeps P Q (round w base n route p))
        → ((p : Progress) → P p → Q (exhausted w base p))
        → (n : ℕ) (rest : List Route) (p : Progress) → ((r : Route) → Mem r rest → Mem r all)
        → P p
        → Q (chat_loop w base n rest p)
    unfolding chat_loop
    loop_rule all step last n [] p within h = last p h
    loop_rule all step last n (route ∷ rest) p within h =
        go (round w base n route p) (step n route p (within route mem-cons_self) h) (λ q k.
          loop_rule all step last (suc n) rest q (λ r m. within r (mem-cons_of_mem route m)) k)
      where
        go :
            (r : Round R)
            → Keeps P Q r
            → ((q : Progress) → P q → Q (chat_loop w base (suc n) rest q))
            → Q (elim r [ next q ↦ chat_loop w base (suc n) rest q | done finish ↦ finish ])
        go (next q) k later = later q k
        go (done f) k later = k

module _ {R : Type 0} (w : World R) (breaker : CircuitBreaker) (Q : Finish R → Type 0) where
  pub chat_rule :
      (routes : List Route) (model : Text)
      → ((e : RouterError)
          → resolve_candidates routes model ≡ err e
          → Q (record { ending = refused e; progress = start breaker }))
      → Q (refuse breaker no_route "chat-select")
      → Q (refuse breaker no_free_route "chat-free-only")
      → ((found : List Route) (r : Route) (rest : List Route)
          → resolve_candidates routes model ≡ ok found
          → filter_free_candidates found w.economics_at_first ≡ r ∷ rest
          → Q (chat_loop w (base_mode (r ∷ rest)) 0 (r ∷ rest) (start breaker)))
      → Q (chat w breaker routes model)
  unfolding chat route_candidates route_eligible
  chat_rule routes model invalid unrouted unfree looped =
      go (resolve_candidates routes model) invalid looped
    where
      split :
          (eligible : List Route)
          → ((r : Route) (rest : List Route)
              → eligible ≡ r ∷ rest
              → Q (chat_loop w (base_mode (r ∷ rest)) 0 (r ∷ rest) (start breaker)))
          → Q (route_eligible w breaker eligible)
      split [] h = unfree
      split (r ∷ rest) h = h r rest refl

      routed :
          (found : List Route)
          → ((r : Route) (rest : List Route)
              → filter_free_candidates found w.economics_at_first ≡ r ∷ rest
              → Q (chat_loop w (base_mode (r ∷ rest)) 0 (r ∷ rest) (start breaker)))
          → Q (route_candidates w breaker found)
      routed [] h = unrouted
      routed (r ∷ rest) h = split (filter_free_candidates (r ∷ rest) w.economics_at_first) h

      go :
          (o : Result (List Route))
          → ((e : RouterError)
              → o ≡ err e
              → Q (record { ending = refused e; progress = start breaker }))
          → ((found : List Route) (r : Route) (rest : List Route)
              → o ≡ ok found
              → filter_free_candidates found w.economics_at_first ≡ r ∷ rest
              → Q (chat_loop w (base_mode (r ∷ rest)) 0 (r ∷ rest) (start breaker)))
          → Q (elim o [
            | err e ↦ record { ending = refused e; progress = start breaker }
            | ok candidates ↦ route_candidates w breaker candidates
          ])
      go (err e) k h = k e refl
      go (ok found) k h = routed found (λ r rest e. h found r rest refl e)
