-- ===== src/Router/Failover.antt =====
-- packages/router/src/router.ts: after which failures the next candidate is tried, and how the
-- ending of a buffered chat follows from its attempts.
use Prim.Native.String.{String}
use goatrouter.Circuit.{CircuitBreaker}
use goatrouter.Common.{
  ℕ, ◌+◌, ◌≡◌, refl, true, Option, none, some, List, [], ◌∷◌, ◌++◌, arith, Text, All, All-append,
  length, length-append, Option-cases, inl, inr,
}
use goatrouter.Route.{Route}
use goatrouter.Router.{complete, round, exhausted, start, base_mode, chat, refuse}
use goatrouter.Router.Types.{
  World, Attempt, responds, throws, Mode, Sent, Progress, Finish, Ending, answered, refused,
  rethrown, all_skipped, effective_proxy_id, is_failover_code,
}
use goatrouter.Router.Rounds.{Keeps, round_rule, try_rule, loop_rule, chat_rule}

module _ {R : Type 0} (w : World R) where
  abbrev pub result_of : Sent → Attempt R
  result_of s = w.send s.turn s.route s.provider s.proxy

  -- The attempt failed with one of the codes after which another provider may succeed.
  pub record FailedOver (s : Sent) : Type 0 where
    pub code : Option String
    pub failed : result_of s ≡ throws code
    pub transient : is_failover_code code ≡ true

  -- The attempts ended with one of this result, and all before it failed over.
  pub record EndsWith (sent : List Sent) (a : Attempt R) : Type 0 where
    pub before : List Sent
    pub last : Sent
    pub split : sent ≡ before ++ last ∷ []
    pub over : All FailedOver before
    pub result : result_of last ≡ a

  -- What an ending says of the attempts.
  abbrev pub Explains : Ending R → List Sent → Type 0
  Explains (answered r) sent =
      (e : EndsWith sent (responds r.response)) × (r.route_id ≡ e.last.route.id)
      × (r.provider_id ≡ e.last.provider.id)
      × (r.proxy ≡ effective_proxy_id e.last.route e.last.provider)
      × (r.attempts ≡ length sent)
  Explains (rethrown code) sent = EndsWith sent (throws code)
  Explains (refused error) sent = All FailedOver sent
  Explains (all_skipped n) sent = sent ≡ []

  -- The failure kept for the end is that of the last attempt.
  abbrev LastFailure : Option (Option String) → List Sent → Type 0
  LastFailure none sent = sent ≡ []
  LastFailure (some code) sent = EndsWith sent (throws code)

  record Going (p : Progress) : Type 0 where
    counted : p.attempts ≡ length p.sent
    over : All FailedOver p.sent
    kept : LastFailure p.last_failure p.sent

  abbrev Ended : Finish R → Type 0
  Ended f = Explains f.ending f.progress.sent

  round-Going :
      (base : Mode) (n : ℕ) (route : Route) (p : Progress)
      → Going p
      → Keeps Going Ended (round w base n route p)
  unfolding complete
  round-Going base n route p g =
      round_rule w base Going Ended n route p
        (record { counted = g.counted; over = g.over; kept = g.kept }) g.over
        (λ b. record { counted = g.counted; over = g.over; kept = g.kept })
        λ provider known on free admitted.
          let s : Sent = record {
            turn = n;
            route = route;
            provider = provider;
            proxy = effective_proxy_id route provider;
            gate = p.breaker;
          } in
          let more : p.attempts + 1 ≡ length (p.sent ++ s ∷ []) =
            omega (arith, g.counted, length-append p.sent (s ∷ [])) in
          let ends : (a : Attempt R) → result_of s ≡ a → EndsWith (p.sent ++ s ∷ []) a =
            λ a e. record { before = p.sent; last = s; split = refl; over = g.over; result = e } in
          try_rule w base Going Ended n route provider p
            (λ r e. (ends (responds r) e, refl, refl, refl, more))
            (λ code e transient. record {
              counted = more;
              over =
                  All-append FailedOver p.sent (s ∷ []) g.over
                    (record { code = code; failed = e; transient = transient }, tt);
              kept = ends (throws code) e;
            })
            (λ code e fixed. ends (throws code) e)

  exhausted-Ended : (base : Mode) (p : Progress) → Going p → Ended (exhausted w base p)
  unfolding exhausted
  exhausted-Ended base p g = elim (Option-cases p.last_failure) [
    | inl quiet ↦ rw (quiet, exhausted) (rw quiet at g.kept)
    | inr (code, failed) ↦ rw (failed, exhausted) (rw failed at g.kept)
  ]

-- The ending of a chat follows from its attempts, all but the last of which failed with a code of
-- the failover set: an answer is the response of the last attempt, names its route, its provider
-- and their proxy, and counts the attempts; a rethrown error is that of the last attempt; when
-- every candidate was skipped there was no attempt; and after any other refusal every attempt made
-- had failed with a code of the failover set.
pub chat-Explains :
    {R : Type 0} (w : World R) (breaker : CircuitBreaker) (routes : List Route) (model : Text)
    → Explains w (chat w breaker routes model).ending (chat w breaker routes model).progress.sent
unfolding refuse
chat-Explains w breaker routes model =
    chat_rule w breaker (λ f. Explains w f.ending f.progress.sent) routes model (λ e _. tt) tt tt
      λ found r rest resolved kept.
        loop_rule w (base_mode (r ∷ rest)) (Going w) (λ f. Explains w f.ending f.progress.sent)
          (r ∷ rest) (λ n route p m g. round-Going w (base_mode (r ∷ rest)) n route p g)
          (λ p g. exhausted-Ended w (base_mode (r ∷ rest)) p g) 0 (r ∷ rest) (start breaker)
          (λ x m. m) (record { counted = refl; over = tt; kept = refl })
