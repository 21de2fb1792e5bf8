-- ===== src/Circuit/Probe.antt =====
-- packages/router/src/circuit.ts: the single half-open probe.
use goatrouter.Common.{
  ℕ, ◌<◌, ◌≡◌, sym, ◌∙◌, refl, inl, inr, true, false, none, List, [], ◌∷◌, ◌++◌, arith, Text,
  text_eq, All, Bool-cases,
}
use goatrouter.Circuit.{half_open, CircuitBreaker, state, allow, Call, asks, succeeds, fails, after}
use goatrouter.Circuit.History.{
  calls_for, failures, probed, expected, admits, state-after, allow-after,
}

-- A request, in contrast to a report.
abbrev pub IsRequest : Call → Type 0
IsRequest (asks now) = Unit
IsRequest succeeds = ⊥
IsRequest (fails now) = ⊥

-- Requests change neither the failures counted, nor a probe already made.
requests_keep :
    (cooldown : ℕ) (more past : List Call)
    → All IsRequest more
    → probed cooldown past ≡ true
    → (failures (more ++ past) ≡ failures past) × (probed cooldown (more ++ past) ≡ true)
unfolding failures probed
requests_keep cooldown [] past requests p = (refl, p)
requests_keep cooldown (asks now ∷ more) past requests p =
    ground (arith, requests_keep cooldown more past requests.1 p)
requests_keep cooldown (succeeds ∷ more) past requests p = absurd requests.0
requests_keep cooldown (fails now ∷ more) past requests p = absurd requests.0

calls_for-append :
    (id : Text) (more past : List (Text × Call))
    → calls_for id (more ++ past) ≡ calls_for id more ++ calls_for id past
unfolding calls_for
calls_for-append id [] past = refl
calls_for-append id ((j, k) ∷ more) past = elim (Bool-cases (text_eq j id)) [
  | inl same ↦ rw (same, calls_for-append id more past) refl
  | inr other ↦ rw (other, calls_for-append id more past) refl
]

half_open_means :
    (threshold cooldown now : ℕ) (more past : List Call)
    → All IsRequest more
    → expected threshold cooldown past ≡ half_open
    → admits threshold cooldown now (more ++ past) ≡ false
unfolding expected
half_open_means threshold cooldown now more past requests e =
    ground (arith, requests_keep cooldown more past requests)

-- From a breaker that has seen no call and has a positive threshold: once a provider is half open,
-- every later request is refused, at whatever time, as long as no success and no failure of that
-- provider is reported.
pub half_open_refuses :
    (c : CircuitBreaker)
    → ((j : Text) → c.by_provider j ≡ none)
    → 0 < c.threshold
    → (id : Text) (past more : List (Text × Call)) (now : ℕ) → state (after c past) id ≡ half_open
    → All IsRequest (calls_for id more)
    → (allow (after c (more ++ past)) id now).1 ≡ false
half_open_refuses c fresh positive id past more now half requests =
    rw (allow-after c fresh positive id (more ++ past) now, calls_for-append id more past)
      (half_open_means c.threshold c.cooldown_ms now (calls_for id more) (calls_for id past)
        requests (sym (state-after c fresh positive id past) ∙ half))
