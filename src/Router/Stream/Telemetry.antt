-- ===== src/Router/Stream/Telemetry.antt =====
-- packages/router/src/router.ts: what the recorder sees of one streamed chat.
use Prim.Native.String.{String}
use goatrouter.Circuit.{CircuitBreaker}
use goatrouter.Common.{
  ℕ, ◌≡◌, refl, sym, ◌∙◌, Bool, true, false, Option, List, [], ◌∷◌, ◌++◌, Text, length,
  length-append, All-append, inl, inr, arith, Option-cases,
}
use goatrouter.Errors.{ok}
use goatrouter.Route.{Route}
use goatrouter.Router.{base_mode, launch, start, handoff}
use goatrouter.Router.Types.{
  Mode, Progress, Provider, Sent, Event, provider_failed, provider_attempted, target, mode_of,
  category, effective_proxy_id,
}
use goatrouter.Router.Telemetry.{
  is_terminal, is_completed, reports, reports-append, IsOpen, Going, handoff-IsOpen, err_ok,
}
use goatrouter.Router.Stream.{
  Delivery, StreamWorld, StreamFinish, StreamEnding, Close, delivered, abandoned, breaks, served,
  stopped, unopened, none_tried, close_stream, deliver, stream_round, announce, stream_exhausted,
  stream_refuse, chat_stream,
}
use goatrouter.Router.Stream.Rounds.{
  StreamKeeps, stream_round_rule, open_rule, stream_loop_rule, stream_rule,
}
use goatrouter.Selection.{resolve_candidates}

abbrev pub is_delivered : StreamEnding → Bool
is_delivered (served delivered) = true
is_delivered _ = false

-- One event, the last, reports the end of the request: completed if the stream was read to its end,
-- failed if not. The others report as many attempts as were made.
pub record IsClosed {C : Type 0} (f : StreamFinish C) : Type 0 where
  pub before : List Event
  pub last : Event
  pub split : f.progress.events ≡ before ++ last ∷ []
  pub terminal : is_terminal last ≡ true
  pub open_before : IsOpen before
  pub outcome : is_completed last ≡ is_delivered f.ending
  pub attempts_reported : reports before ≡ length f.progress.sent

-- When the consumer left the stream there are reports of attempts only.
abbrev pub IsTold : {C : Type 0} → (f : StreamFinish C) → StreamEnding → Type 0
IsTold f (served abandoned) = Going f.progress
IsTold f (served delivered) = IsClosed f
IsTold f (served (breaks code)) = IsClosed f
IsTold f (stopped error) = IsClosed f
IsTold f (unopened code) = IsClosed f
IsTold f (none_tried n) = IsClosed f

-- A finish that closes open events by a terminal one.
close_events-IsClosed :
    {C : Type 0} (f : StreamFinish C) (old : List Event) (last : Event)
    → f.progress.events ≡ old ++ last ∷ []
    → IsOpen old
    → is_terminal last ≡ true
    → is_completed last ≡ is_delivered f.ending
    → reports old ≡ length f.progress.sent
    → IsClosed f
close_events-IsClosed f old last split open_old terminal outcome n = record {
  before = old;
  last = last;
  split = split;
  terminal = terminal;
  open_before = open_old;
  outcome = outcome;
  attempts_reported = n;
}

append-IsOpen :
    (p : Progress) (more : List Event) (s : Sent)
    → Going p
    → IsOpen more
    → reports more ≡ 1
    → IsOpen (p.events ++ more) × (reports (p.events ++ more) ≡ length (p.sent ++ s ∷ []))
append-IsOpen p more s g open_more one = (
  All-append (λ e. is_terminal e ≡ false) p.events more g.open_events open_more,
  omega (arith, g.reported, one, reports-append p.events more, length-append p.sent (s ∷ [])),
)

module _ {C : Type 0} (v : StreamWorld C) (base : Mode) where
  deliver-IsTold :
      (n : ℕ) (route : Route) (provider : Provider) (d : Delivery C) (p : Progress)
      → Going (announce v base route provider p)
      → IsTold (deliver v base n route provider d p) (served d.close)
  unfolding deliver close_stream
  deliver-IsTold n route provider d p g = go d.close d.chunks
    where
      go :
          (close : Close) (chunks : List C)
          → IsTold
              (deliver v base n route provider (record { chunks = chunks; close = close }) p)
              (served close)
      go delivered chunks = close_events-IsClosed _ _ _ refl g.open_events refl refl g.reported
      go abandoned chunks = record { open_events = g.open_events; reported = g.reported }
      go (breaks code) chunks = close_events-IsClosed _ _ _ refl g.open_events refl refl g.reported

  abbrev Ended : StreamFinish C → Type 0
  Ended f = IsTold f f.ending

  deliver-Ended :
      (n : ℕ) (route : Route) (provider : Provider) (d : Delivery C) (p : Progress)
      → IsTold (deliver v base n route provider d p) (served d.close)
      → Ended (deliver v base n route provider d p)
  unfolding deliver
  deliver-Ended n route provider d p told = told

  round-Going :
      (n : ℕ) (route : Route) (p : Progress)
      → Going p
      → StreamKeeps Going Ended (stream_round v base n route p)
  round-Going n route p g =
      stream_round_rule v base Going Ended n route p
        (record { open_events = g.open_events; reported = g.reported })
        (close_events-IsClosed _ p.events _ refl g.open_events refl refl g.reported)
        (λ b. record { open_events = g.open_events; reported = g.reported })
        λ provider known on free admitted.
          let s : Sent = record {
            turn = n;
            route = route;
            provider = provider;
            proxy = effective_proxy_id route provider;
            gate = p.breaker;
          } in
          let launched = launch v.world base n route provider p.breaker p in
          let (open_handoff, none_reported) = handoff-IsOpen v.world base route provider launched in
          let attempted : List Event =
            provider_attempted (target route provider) (mode_of base launched.attempts)
              launched.attempts
            ∷ [] in
          let failed : Option String → List Event = λ code.
            provider_failed (target route provider) (mode_of base launched.attempts) (category code)
              launched.attempts
            ∷ [] in
          open_rule v base Going Ended n route provider p
            (λ d e.
              let (opens, counts) =
                append-IsOpen p (handoff v.world base route provider launched ++ attempted) s g
                  (All-append (λ e. is_terminal e ≡ false)
                    (handoff v.world base route provider launched) attempted open_handoff
                    (refl, tt))
                  (omega (
                    arith,
                    none_reported,
                    reports-append (handoff v.world base route provider launched) attempted,
                  )) in
              deliver-Ended n route provider d launched (
                deliver-IsTold n route provider d launched
                  (record { open_events = opens; reported = counts })))
            (λ code e transient.
              let (opens, counts) = append-IsOpen p (failed code) s g (refl, tt) refl in
              record { open_events = opens; reported = counts })
            (λ code e fixed.
              let (opens, counts) = append-IsOpen p (failed code) s g (refl, tt) refl in
              close_events-IsClosed _ (p.events ++ failed code) _ refl opens refl refl counts)

  exhausted-IsTold : (p : Progress) → Going p → Ended (stream_exhausted v base p)
  unfolding stream_exhausted
  exhausted-IsTold p g = elim (Option-cases p.last_failure) [
    | inl quiet ↦
        rw (quiet, stream_exhausted)
          (close_events-IsClosed _ p.events _ refl g.open_events refl refl g.reported)
    | inr (code, failed) ↦
        rw (failed, stream_exhausted)
          (close_events-IsClosed _ p.events _ refl g.open_events refl refl g.reported)
  ]

-- A streamed chat for a model that is valid, over patterns that are valid, emits as many reports of
-- attempts as it made, and exactly one event that reports the end of the request, the last one:
-- `request.completed` if the stream was read to its end, a `request.failed` if it broke or none was
-- opened. When the consumer leaves the stream, no event reports the end of the request.
pub chat_stream-IsTold :
    {C : Type 0} (v : StreamWorld C) (breaker : CircuitBreaker) (routes : List Route) (model : Text)
    (found : List Route)
    → resolve_candidates routes model ≡ ok found
    → IsTold (chat_stream v breaker routes model) (chat_stream v breaker routes model).ending
unfolding stream_refuse
chat_stream-IsTold v breaker routes model found resolved =
    stream_rule v breaker (λ f. IsTold f f.ending) routes model
      (λ e wrong. absurd (err_ok (sym wrong ∙ resolved)))
      (close_events-IsClosed _ [] _ refl tt refl refl refl)
      (close_events-IsClosed _ [] _ refl tt refl refl refl)
      λ found' r rest resolved' kept.
        stream_loop_rule v (base_mode (r ∷ rest)) Going (λ f. IsTold f f.ending) (r ∷ rest)
          (λ n route p m g. round-Going v (base_mode (r ∷ rest)) n route p g)
          (λ p g. exhausted-IsTold v (base_mode (r ∷ rest)) p g) 0 (r ∷ rest) (start breaker)
          (λ x m. m) (record { open_events = tt; reported = refl })
