-- ===== src/Selection/Tests.antt =====
-- Three routes for one model, and the theorems on patterns and candidates at them.
use mathlib.Core.List.{Mem, mem-cons, not-mem-nil}
use goatrouter.Common.{
  ℕ, ◌≡◌, ◌↔◌, ◌<◌, refl, Bool, true, false, none, List, [], ◌∷◌, Text, codes, length, All, ◌≤◌,
  ◌≢◌, text_eq, text_lt,
}
use goatrouter.Errors.{ok}
use goatrouter.Model.{
  is_model_char, is_model_id, includes, assert_model_id, ends_with_star, drop_last,
  assert_model_pattern, matches_model_pattern, pattern_specificity,
}
use goatrouter.Model.Matching.{Covers, matches_model_pattern_iff, specificity_order}
use goatrouter.Model.Safety.{Avoids, is_model_id_safe}
use goatrouter.Route.{Route}
use goatrouter.Selection.{goes_before, sort, matching, resolve_candidates}
use goatrouter.Selection.Matching.{Route-set}
use mathlib.Core.List.Perm
use mathlib.Core.Logic.Or
use mathlib.Core.HLevel.{Π_prop}
use goatrouter.Selection.Order.{Keyed, IsSorted}
use goatrouter.Selection.Candidates.{resolve_candidates_lem, resolve_candidates_perm}

abbrev llama : Text
llama = codes "llama3:8b"

abbrev route : Text → Text → ℕ → Bool → Route
route id model priority enabled = record {
  id = id;
  model = model;
  provider_id = codes "local";
  proxy_id = none;
  force_direct = false;
  free_only = true;
  priority = priority;
  enabled = enabled;
  request_timeout_ms = 60_000;
}

abbrev wide : Route
wide = route (codes "wide") (codes "llama*") 900 true

abbrev pinned : Route
pinned = route (codes "pinned") llama 100 true

abbrev switched_off : Route
switched_off = route (codes "off") llama 100 false

abbrev registry : List Route
registry = wide ∷ switched_off ∷ pinned ∷ []

registry_candidates : resolve_candidates registry llama ≡ ok (pinned ∷ wide ∷ [])
unfolding resolve_candidates matching sort goes_before matches_model_pattern assert_model_pattern
    assert_model_id is_model_id is_model_char includes ends_with_star drop_last text_eq text_lt
registry_candidates = refl

matches_model_pattern_iff_example :
    (matches_model_pattern (codes "llama*") llama ≡ ok true) ↔ Covers (codes "llama*") llama
matches_model_pattern_iff_example = matches_model_pattern_iff (codes "llama*") llama

specificity_order_example : 5 < 129
unfolding pattern_specificity assert_model_pattern is_model_id is_model_char includes ends_with_star
    drop_last
specificity_order_example = (specificity_order (codes "llama*") llama 5 129 refl refl refl).0 refl

is_model_id_safe_example :
    All (λ c. is_model_char c ≡ true) llama
    × (length llama ≤ 128)
    × (llama ≢ [])
    × Avoids (codes "..") llama
    × Avoids (codes "//") llama
    × Avoids (codes ":/") llama
unfolding is_model_id is_model_char includes
is_model_id_safe_example = is_model_id_safe llama refl

resolve_candidates_lem_example :
    IsSorted (pinned ∷ wide ∷ [])
    × ((r : Route)
        → Mem r (pinned ∷ wide ∷ []) ↔ (
            Mem r registry
            × ((r.enabled ≡ true) × (matches_model_pattern r.model llama ≡ ok true))))
resolve_candidates_lem_example =
    resolve_candidates_lem registry llama (pinned ∷ wide ∷ []) registry_candidates

abbrev two : List Route
two = wide ∷ pinned ∷ []

two_candidates : resolve_candidates two llama ≡ ok (pinned ∷ wide ∷ [])
unfolding resolve_candidates matching sort goes_before matches_model_pattern assert_model_pattern
    assert_model_id is_model_id is_model_char includes ends_with_star drop_last text_eq text_lt
two_candidates = refl

-- What holds of both items of a pair holds of each member.
pair_cases :
    (P : Route → Type 0) (a b r : Route)
    → ((x : Route) → IsProp (P x))
    → P a
    → P b
    → Mem r (a ∷ b ∷ [])
    → P r
pair_cases P a b r prop pa pb m =
    Or.elim (prop r) (mem-cons.0 m) (λ e. rw e pa)
      (λ n. Or.elim (prop r) (mem-cons.0 n) (λ e. rw e pb) (λ z. absurd (not-mem-nil z)))

two-Keyed : Keyed two
two-Keyed r s hr hs =
    pair_cases (λ x. x.id ≡ s.id → x ≡ s) wide pinned r (λ x. Π_prop (λ _. Route-set x s))
      (pair_cases (λ y. wide.id ≡ y.id → wide ≡ y) wide pinned s
        (λ y. Π_prop (λ _. Route-set wide y)) (λ _. refl) (λ e. cc e) hs)
      (pair_cases (λ y. pinned.id ≡ y.id → pinned ≡ y) wide pinned s
        (λ y. Π_prop (λ _. Route-set pinned y)) (λ e. cc e) (λ _. refl) hs)
      hr

resolve_candidates_perm_example :
    resolve_candidates (pinned ∷ wide ∷ []) llama ≡ ok (pinned ∷ wide ∷ [])
resolve_candidates_perm_example =
    resolve_candidates_perm two (pinned ∷ wide ∷ []) llama (pinned ∷ wide ∷ [])
      (Perm.swap pinned wide []) two-Keyed two_candidates
