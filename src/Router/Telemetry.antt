-- ===== src/Router/Telemetry.antt =====
-- packages/router/src/router.ts: the events of a buffered chat.
use Prim.Native.String.{String}
use goatrouter.Circuit.{CircuitBreaker}
use goatrouter.Common.{
  ℕ, suc, ◌+◌, ◌≡◌, refl, sym, ap, ◌∙◌, Bool, true, false, Option, List, [], ◌∷◌, ◌++◌, arith, Text,
  All, All-append, length, length-append, ltb, Option-cases, Bool-cases, inl, inr,
}
use mathlib.Core.List.{append_assoc}
use goatrouter.Route.{Route}
use goatrouter.Router.{complete, launch, round, exhausted, start, base_mode, chat, refuse, handoff}
use goatrouter.Router.Types.{
  Provider, World, Mode, Sent, Progress, Finish, Ending, answered, mode_of, target, Event,
  request_refused, request_failed, request_completed, failover_started, provider_attempted,
  provider_failed, category, effective_proxy_id,
}
use goatrouter.Errors.{ok, err, RouterError}
use goatrouter.Selection.{resolve_candidates}
use goatrouter.Router.Rounds.{Keeps, round_rule, try_rule, loop_rule, chat_rule}

-- The events that report the end of a request.
abbrev pub is_terminal : Event → Bool
is_terminal (request_refused mode category attempts) = true
is_terminal (request_failed to mode category attempts) = true
is_terminal (request_completed to mode attempts) = true
is_terminal (failover_started to mode attempts) = false
is_terminal (provider_attempted to mode attempts) = false
is_terminal (provider_failed to mode category attempts) = false

-- How many events report one attempt.
abbrev pub reports : List Event → ℕ
reports [] = 0
reports (provider_attempted to mode attempts ∷ es) = suc (reports es)
reports (provider_failed to mode category attempts ∷ es) = suc (reports es)
reports (_ ∷ es) = reports es

abbrev pub is_completed : Event → Bool
is_completed (request_completed to mode attempts) = true
is_completed _ = false

abbrev pub is_answered : {R : Type 0} → Ending R → Bool
is_answered (answered r) = true
is_answered _ = false

pub reports-append : (xs ys : List Event) → reports (xs ++ ys) ≡ reports xs + reports ys
reports-append [] ys = omega arith
reports-append (request_refused mode category attempts ∷ xs) ys = reports-append xs ys
reports-append (request_failed to mode category attempts ∷ xs) ys = reports-append xs ys
reports-append (request_completed to mode attempts ∷ xs) ys = reports-append xs ys
reports-append (failover_started to mode attempts ∷ xs) ys = reports-append xs ys
reports-append (provider_attempted to mode attempts ∷ xs) ys = omega (arith, reports-append xs ys)
reports-append (provider_failed to mode category attempts ∷ xs) ys =
    omega (arith, reports-append xs ys)

-- One event, the last, reports the end of the request: completed if it was answered, failed if it
-- was not. The others report as many attempts as were made.
pub record IsReported {R : Type 0} (f : Finish R) : Type 0 where
  pub before : List Event
  pub last : Event
  pub split : f.progress.events ≡ before ++ last ∷ []
  pub terminal : is_terminal last ≡ true
  pub open_before : All (λ e. is_terminal e ≡ false) before
  pub outcome : is_completed last ≡ is_answered f.ending
  pub attempts_reported : reports before ≡ length f.progress.sent

abbrev pub IsOpen : List Event → Type 0
IsOpen = All (λ e. is_terminal e ≡ false)

-- A finish that closes the events so far by some open ones and a terminal one.
close_events :
    {R : Type 0} (f : Finish R) (old more : List Event) (last : Event)
    → f.progress.events ≡ old ++ (more ++ last ∷ [])
    → IsOpen old
    → IsOpen more
    → is_terminal last ≡ true
    → is_completed last ≡ is_answered f.ending
    → reports old + reports more ≡ length f.progress.sent
    → IsReported f
close_events f old more last split open_old open_more terminal outcome n = record {
  before = old ++ more;
  last = last;
  split = split ∙ sym (append_assoc old more (last ∷ []));
  terminal = terminal;
  open_before = All-append (λ e. is_terminal e ≡ false) old more open_old open_more;
  outcome = outcome;
  attempts_reported = reports-append old more ∙ n;
}

pub record Going (p : Progress) : Type 0 where
  pub open_events : IsOpen p.events
  pub reported : reports p.events ≡ length p.sent

module _ {R : Type 0} (w : World R) (base : Mode) where
  pub handoff-IsOpen :
      (route : Route) (provider : Provider) (p : Progress)
      → IsOpen (handoff w base route provider p) × (reports (handoff w base route provider p) ≡ 0)
  handoff-IsOpen route provider p = elim (Bool-cases (ltb 1 p.attempts)) [
    | inl later ↦ rw later ((refl, tt), refl)
    | inr first ↦ rw first (tt, refl)
  ]

  round-Going :
      (n : ℕ) (route : Route) (p : Progress)
      → Going p
      → Keeps Going IsReported (round w base n route p)
  unfolding complete
  round-Going n route p g =
      round_rule w base Going IsReported n route p
        (record { open_events = g.open_events; reported = g.reported })
        (close_events _ p.events [] _ refl g.open_events tt refl refl (omega (arith, g.reported)))
        (λ b. record { open_events = g.open_events; reported = g.reported })
        λ provider known on free admitted.
          let s : Sent = record {
            turn = n;
            route = route;
            provider = provider;
            proxy = effective_proxy_id route provider;
            gate = p.breaker;
          } in
          let one_more = length-append p.sent (s ∷ []) in
          let launched = launch w base n route provider p.breaker p in
          let (open_handoff, none_reported) = handoff-IsOpen route provider launched in
          let failed : Option String → Event = λ code.
            provider_failed (target route provider) (mode_of base launched.attempts) (category code)
              launched.attempts in
          try_rule w base Going IsReported n route provider p
            (λ r e.
              close_events _ p.events
                (handoff w base route provider launched
                  ++ (provider_attempted (target route provider) (mode_of base launched.attempts)
                        launched.attempts
                      ∷ []))
                _
                (ap (◌++◌ p.events)
                  (sym (append_assoc (handoff w base route provider launched) _ _)))
                g.open_events
                (All-append (λ e. is_terminal e ≡ false) (handoff w base route provider launched) _
                  open_handoff (refl, tt))
                refl refl
                (omega (
                  arith,
                  g.reported,
                  one_more,
                  none_reported,
                  reports-append (handoff w base route provider launched) (
                      provider_attempted (target route provider) (mode_of base launched.attempts)
                        launched.attempts
                      ∷ []),
                )))
            (λ code e transient. record {
              open_events =
                  All-append (λ e. is_terminal e ≡ false) p.events (failed code ∷ []) g.open_events
                    (refl, tt);
              reported =
                  omega (arith, g.reported, one_more, reports-append p.events (failed code ∷ []));
            })
            (λ code e fixed.
              close_events _ p.events (failed code ∷ []) _ (append_assoc p.events _ _) g.open_events
                (refl, tt) refl refl (omega (arith, g.reported, one_more)))

  exhausted-IsReported : (p : Progress) → Going p → IsReported (exhausted w base p)
  unfolding exhausted
  exhausted-IsReported p g = elim (Option-cases p.last_failure) [
    | inl quiet ↦
        rw (quiet, exhausted)
          (close_events _ p.events [] _ refl g.open_events tt refl refl (omega (arith, g.reported)))
    | inr (code, failed) ↦
        rw (failed, exhausted)
          (close_events _ p.events [] _ refl g.open_events tt refl refl (omega (arith, g.reported)))
  ]

pub err_ok {ℓ} : {A : Type ℓ} {e : RouterError} {a : A} → err e ≡ ok a → ⊥
err_ok h = cc

-- A chat for a model that is valid, over patterns that are valid, emits exactly one event that
-- reports the end of the request, and emits it last: `request.completed` if the chat is answered,
-- a `request.failed` if not. Before it stand as many reports of attempts as were made.
pub chat-IsReported :
    {R : Type 0} (w : World R) (breaker : CircuitBreaker) (routes : List Route) (model : Text)
    (found : List Route)
    → resolve_candidates routes model ≡ ok found
    → IsReported (chat w breaker routes model)
unfolding refuse
chat-IsReported w breaker routes model found resolved =
    chat_rule w breaker IsReported routes model (λ e wrong. absurd (err_ok (sym wrong ∙ resolved)))
      (close_events _ [] [] _ refl tt tt refl refl (omega arith))
      (close_events _ [] [] _ refl tt tt refl refl (omega arith))
      λ found' r rest resolved' kept.
        loop_rule w (base_mode (r ∷ rest)) Going IsReported (r ∷ rest)
          (λ n route p m g. round-Going w (base_mode (r ∷ rest)) n route p g)
          (λ p g. exhausted-IsReported w (base_mode (r ∷ rest)) p g) 0 (r ∷ rest) (start breaker)
          (λ x m. m) (record { open_events = tt; reported = refl })
