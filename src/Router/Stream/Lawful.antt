-- ===== src/Router/Stream/Lawful.antt =====
-- packages/router/src/router.ts: the attempts of a streamed chat are lawful.
use mathlib.Core.List.{Mem}
use goatrouter.Circuit.{CircuitBreaker}
use goatrouter.Common.{ℕ, ◌∷◌, List, Text, All, inl, inr, Option-cases, sym, subst}
use goatrouter.Route.{Route}
use goatrouter.Router.{base_mode, start}
use goatrouter.Router.Types.{Mode, Progress}
use goatrouter.Router.Lawful.{Lawful, Eligible, launch-Lawful, mem_filter_free, candidate_parts}
use goatrouter.Router.Stream.{
  StreamWorld, StreamFinish, close_stream, deliver, stream_round, stream_exhausted, stream_refuse,
  chat_stream,
}
use goatrouter.Router.Stream.Rounds.{
  StreamKeeps, stream_round_rule, open_rule, stream_loop_rule, stream_rule, close_keeps_sent,
}
use goatrouter.Selection.Candidates.{resolve_candidates_lem}

module _ {C : Type 0} (v : StreamWorld C) (base : Mode) (routes : List Route) (model : Text) where
  abbrev Going : Progress → Type 0
  Going p = All (Lawful v.world routes model) p.sent

  abbrev Ended : StreamFinish C → Type 0
  Ended f = Going f.progress

  stream_round-Lawful :
      (n : ℕ) (route : Route) (p : Progress)
      → Eligible routes model route
      → Going p
      → StreamKeeps Going Ended (stream_round v base n route p)
  unfolding deliver close_stream
  stream_round-Lawful n route p e h =
      stream_round_rule v base Going Ended n route p h h (λ b. h)
        λ provider known on free admitted.
          let launched =
            launch-Lawful v.world base routes model n route provider p e known on free admitted h in
          open_rule v base Going Ended n route provider p
            (λ d _. rw (close_keeps_sent v base route provider d.close) launched)
            (λ code _ _. launched) (λ code _ _. launched)

  stream_exhausted-Lawful : (p : Progress) → Going p → Ended (stream_exhausted v base p)
  unfolding stream_exhausted
  stream_exhausted-Lawful p h = elim (Option-cases p.last_failure) [
    | inl quiet ↦ rw (quiet, stream_exhausted) h
    | inr (code, failed) ↦ rw (failed, stream_exhausted) h
  ]

-- However a streamed chat ends, every attempt that it made was lawful, in the sense of a buffered
-- chat: for a route of the registry that is enabled and matches the model, at a provider known and
-- enabled when its turn came, through the proxy that route and provider give, let through by the
-- circuit of the provider, and, if the route is free-only, with economics proven free at that turn.
pub chat_stream-Lawful :
    {C : Type 0} (v : StreamWorld C) (breaker : CircuitBreaker) (routes : List Route) (model : Text)
    → All (Lawful v.world routes model) (chat_stream v breaker routes model).progress.sent
unfolding stream_refuse
chat_stream-Lawful v breaker routes model =
    stream_rule v breaker (λ f. All (Lawful v.world routes model) f.progress.sent) routes model
      (λ e _. tt) tt tt
      λ found r rest resolved kept.
        let base = base_mode (r ∷ rest) in
        let chosen = (resolve_candidates_lem routes model found resolved).1 in
        let eligible : (x : Route) → Mem x (r ∷ rest) → Eligible routes model x = λ x m.
          let (listed, on, fits) =
            candidate_parts routes model found x (chosen x)
              (mem_filter_free found v.world.economics_at_first x (subst (Mem x) (sym kept) m)) in
          record { listed = listed; route_enabled = on; matches = fits } in
        stream_loop_rule v base (λ p. All (Lawful v.world routes model) p.sent)
          (λ f. All (Lawful v.world routes model) f.progress.sent) (r ∷ rest)
          (λ n route p m h. stream_round-Lawful v base routes model n route p (eligible route m) h)
          (λ p h. stream_exhausted-Lawful v base routes model p h) 0 (r ∷ rest) (start breaker)
          (λ x m. m) tt
