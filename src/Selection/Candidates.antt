-- ===== src/Selection/Candidates.antt =====
-- packages/router/src/selection.ts: which candidates a model gets, in which order.
use mathlib.Core.List.{Perm, Mem}
use mathlib.Core.List.Perm
use mathlib.Core.Logic.{∥∥₁_elim}
use goatrouter.Common.{◌≡◌, ◌↔◌, refl, sym, ap, subst, ◌∙◌, true, List, Text}
use goatrouter.Errors.{>>=-eq-ok, ok}
use goatrouter.Route.{Route}
use goatrouter.Model.{matches_model_pattern, assert_model_id}
use goatrouter.Selection.{sort, matching, resolve_candidates}
use goatrouter.Selection.Order.{Keyed, IsSorted, sort-IsSorted, sort-perm, sort-eq_of_perm}
use goatrouter.Selection.Matching.{
  Routes-set, ok_injective, serves_parts, assert_model_id-eq, matching-perm, matching-Chosen,
}

resolve_parts :
    (routes : List Route) (model : Text) (found : List Route)
    → resolve_candidates routes model ≡ ok found
    → (picked : List Route) × (assert_model_id model ≡ ok model)
      × (matching routes model ≡ ok picked)
      × (found ≡ sort picked)
unfolding resolve_candidates
resolve_parts routes model found e =
    let (requested, valid, e') = >>=-eq-ok (assert_model_id model) _ e in
    let same : requested ≡ model = assert_model_id-eq model requested valid in
    let (picked, e'', last) = >>=-eq-ok (matching routes requested) _ e' in
    (
      picked,
      subst (λ u. assert_model_id model ≡ ok u) same valid,
      subst (λ u. matching routes u ≡ ok picked) same e'',
      ok_injective (sym last),
    )

-- When candidates are returned, they are exactly the routes of the registry that are enabled and
-- whose pattern matches the model, and none goes before one that stands ahead of it: by rank of
-- the pattern, then by priority, then by id.
pub resolve_candidates_lem :
    (routes : List Route) (model : Text) (found : List Route)
    → resolve_candidates routes model ≡ ok found
    → IsSorted found
      × ((r : Route)
          → Mem r found ↔ (
              Mem r routes
              × ((r.enabled ≡ true) × (matches_model_pattern r.model model ≡ ok true))))
resolve_candidates_lem routes model found e =
    let (picked, valid, e', shape) = resolve_parts routes model found e in
    let chosen = matching-Chosen routes model picked e' in
    let same : (r : Route) → Mem r found ↔ Mem r picked = λ r.
      rw shape ((Perm.mem_iff ∣ sort-perm picked ∣₁).1, (Perm.mem_iff ∣ sort-perm picked ∣₁).0) in
    (
      rw shape (sort-IsSorted picked),
      λ r. (
        λ m.
            let (listed, serving) = (chosen r).0 ((same r).0 m) in
            (listed, serves_parts r model serving),
        λ p. (same r).1 ((chosen r).1 (p.0, rw p.1.0 p.1.1)),
      ),
    )

resolve_of_parts :
    (routes : List Route) (model : Text) (picked : List Route)
    → assert_model_id model ≡ ok model
    → matching routes model ≡ ok picked
    → resolve_candidates routes model ≡ ok (sort picked)
unfolding resolve_candidates
resolve_of_parts routes model picked valid e = rw (valid, e) refl

-- The candidates do not depend on the order of the registry: if the routes have distinct ids, a
-- permutation of them yields the same candidates in the same order.
pub resolve_candidates_perm :
    (routes others : List Route) (model : Text) (found : List Route)
    → Perm routes others
    → Keyed routes
    → resolve_candidates routes model ≡ ok found
    → resolve_candidates others model ≡ ok found
resolve_candidates_perm routes others model found p key e =
    let (picked, valid, e', shape) = resolve_parts routes model found e in
    ∥∥₁_elim p (Routes-set _ _) (λ d.
      let (picked', e'', q) = matching-perm routes others model picked d e' in
      let keyed : Keyed picked = λ r s hr hs same.
        key r s ((matching-Chosen routes model picked e' r).0 hr).0
          ((matching-Chosen routes model picked e' s).0 hs).0 same in
      resolve_of_parts others model picked' valid e''
      ∙ ap ok (sym (shape ∙ sort-eq_of_perm picked picked' q keyed)))
