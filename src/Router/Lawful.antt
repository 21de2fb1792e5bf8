-- ===== src/Router/Lawful.antt =====
-- packages/router/src/router.ts: what every attempt of a buffered chat respects.
use mathlib.Core.List.{Mem, Mem-prop, mem-cons, mem-cons_self, mem-cons_of_mem}
use mathlib.Core.Logic.Or
use goatrouter.Economics.{ModelEconomics}
use goatrouter.Circuit.{CircuitBreaker, allow}
use goatrouter.Common.{
  ℕ, ◌≡◌, refl, true, false, not, Option, some, List, [], ◌∷◌, arith, Text, All, All-append,
  Bool-cases, Option-cases, inl, inr, sym, subst, ◌↔◌, ◌||◌,
}
use goatrouter.Errors.{ok}
use goatrouter.Model.{matches_model_pattern}
use goatrouter.Route.{Route}
use goatrouter.Router.{complete, launch, round, refuse, exhausted, start, base_mode, chat}
use goatrouter.Router.Types.{Provider, World, Mode, Sent, Progress, Finish, effective_proxy_id}
use goatrouter.Router.Rounds.{Keeps, may_not_spend, round_rule, try_rule, loop_rule, chat_rule}
use goatrouter.Selection.{is_free_candidate, filter_free_candidates}
use goatrouter.Selection.Candidates.{resolve_candidates_lem}

-- An attempt was made for a route of the registry that is enabled and matches the model, at a
-- provider that was known and enabled when its turn came, through the proxy that the route and the
-- provider give and no other; the circuit of the provider let it through; and if the route is
-- free-only, the economics of its model were proven free at that very turn.
pub record Lawful {R : Type 0} (w : World R) (routes : List Route) (model : Text) (s : Sent)
    : Type 0 where
  pub listed : Mem s.route routes
  pub route_enabled : s.route.enabled ≡ true
  pub matches : matches_model_pattern s.route.model model ≡ ok true
  pub known : w.provider s.turn s.route.provider_id ≡ some s.provider
  pub enabled : s.provider.enabled ≡ true
  pub free : s.route.free_only ≡ true → is_free_candidate (w.economics s.turn s.route) ≡ true
  pub proxied : s.proxy ≡ effective_proxy_id s.route s.provider
  pub admitted : (allow s.gate s.provider.id (w.gate_clock s.turn)).1 ≡ true

-- What a route that comes to its turn brings with it.
pub record Eligible (routes : List Route) (model : Text) (r : Route) : Type 0 where
  pub listed : Mem r routes
  pub route_enabled : r.enabled ≡ true
  pub matches : matches_model_pattern r.model model ≡ ok true

module _ {R : Type 0} (w : World R) (base : Mode) (routes : List Route) (model : Text) where
  abbrev Going : Progress → Type 0
  Going p = All (Lawful w routes model) p.sent

  abbrev Ended : Finish R → Type 0
  Ended f = All (Lawful w routes model) f.progress.sent

  pub launch-Lawful :
      (n : ℕ) (route : Route) (provider : Provider) (p : Progress)
      → Eligible routes model route
      → w.provider n route.provider_id ≡ some provider
      → provider.enabled ≡ true
      → may_not_spend w base n route ≡ false
      → (allow p.breaker provider.id (w.gate_clock n)).1 ≡ true
      → Going p
      → Going (launch w base n route provider p.breaker p)
  launch-Lawful n route provider p e known on free admitted h =
      All-append (Lawful w routes model) p.sent _ h (
        record {
          listed = e.listed;
          route_enabled = e.route_enabled;
          matches = e.matches;
          known = known;
          enabled = on;
          free = λ f. ground arith;
          proxied = refl;
          admitted = admitted;
        },
        tt,
      )

  round-Lawful :
      (n : ℕ) (route : Route) (p : Progress)
      → Eligible routes model route
      → Going p
      → Keeps Going Ended (round w base n route p)
  unfolding complete
  round-Lawful n route p e h =
      round_rule w base Going Ended n route p h h (λ b. h)
        λ provider known on free admitted.
          let launched = launch-Lawful n route provider p e known on free admitted h in
          try_rule w base Going Ended n route provider p (λ r _. launched) (λ code _ _. launched)
            (λ code _ _. launched)

exhausted-Lawful :
    {R : Type 0} (w : World R) (base : Mode) (routes : List Route) (model : Text) (p : Progress)
    → All (Lawful w routes model) p.sent
    → All (Lawful w routes model) (exhausted w base p).progress.sent
unfolding exhausted
exhausted-Lawful w base routes model p h = elim (Option-cases p.last_failure) [
  | inl quiet ↦ rw (quiet, exhausted) h
  | inr (code, failed) ↦ rw (failed, exhausted) h
]

-- The filter drops candidates and adds none.
pub mem_filter_free :
    (found : List Route) (lookup : Route → Option ModelEconomics) (r : Route)
    → Mem r (filter_free_candidates found lookup)
    → Mem r found
unfolding filter_free_candidates
mem_filter_free [] lookup r m = m
mem_filter_free (x ∷ xs) lookup r m =
    elim (Bool-cases (not x.free_only || is_free_candidate (lookup x))) [
      | inl kept ↦
          Or.elim Mem-prop (mem-cons.0 (rw kept at m)) (λ e. rw e mem-cons_self)
            (λ n. mem-cons_of_mem x (mem_filter_free xs lookup r n))
      | inr dropped ↦ mem-cons_of_mem x (mem_filter_free xs lookup r (rw dropped at m))
    ]

pub candidate_parts :
    (routes : List Route) (model : Text) (found : List Route) (r : Route)
    → Mem r found
      ↔ (Mem r routes × ((r.enabled ≡ true) × (matches_model_pattern r.model model ≡ ok true)))
    → Mem r found
    → Mem r routes × (r.enabled ≡ true) × (matches_model_pattern r.model model ≡ ok true)
candidate_parts routes model found r iff m =
    let (listed, (on, fits)) = iff.0 m in (listed, on, fits)

-- However the chat ends, every attempt that it made was lawful: for a route of the registry that
-- is enabled and matches the model, at a provider known and enabled when its turn came, through
-- the proxy that route and provider give, let through by the circuit of the provider, and, if the
-- route is free-only, with economics proven free at that very turn.
pub chat-Lawful :
    {R : Type 0} (w : World R) (breaker : CircuitBreaker) (routes : List Route) (model : Text)
    → All (Lawful w routes model) (chat w breaker routes model).progress.sent
unfolding refuse
chat-Lawful w breaker routes model =
    chat_rule w breaker (λ f. All (Lawful w routes model) f.progress.sent) routes model (λ e _. tt)
      tt tt
      λ found r rest resolved kept.
        let base = base_mode (r ∷ rest) in
        let chosen = (resolve_candidates_lem routes model found resolved).1 in
        let eligible : (x : Route) → Mem x (r ∷ rest) → Eligible routes model x = λ x m.
          let (listed, on, fits) =
            candidate_parts routes model found x (chosen x)
              (mem_filter_free found w.economics_at_first x (subst (Mem x) (sym kept) m)) in
          record { listed = listed; route_enabled = on; matches = fits } in
        loop_rule w base (λ p. All (Lawful w routes model) p.sent)
          (λ f. All (Lawful w routes model) f.progress.sent) (r ∷ rest)
          (λ n route p m h. round-Lawful w base routes model n route p (eligible route m) h)
          (λ p h. exhausted-Lawful w base routes model p h) 0 (r ∷ rest) (start breaker) (λ x m. m)
          tt
