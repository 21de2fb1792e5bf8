-- ===== src/Selection.antt =====
-- packages/router/src/selection.ts: the routes that serve a model, most preferred first.
pub mod Order
pub mod Matching
pub mod Candidates
mod Tests
use goatrouter.Common.{
  ℕ, Bool, true, false, not, ◌&&◌, ◌||◌, Option, none, some, List, [], ◌∷◌, Text, text_lt, ltb,
  ◌==◌, if◌then◌else◌,
}
use goatrouter.Economics.{ModelEconomics, is_free_economics}
use goatrouter.Errors.{Result, ok, err, router_error, no_route, ◌>>=◌}
use goatrouter.Model.{assert_model_id, matches_model_pattern, rank_of}
use goatrouter.Route.{Route}

-- Whether the comparator is positive for (right, left) read as its arguments (left, right): the
-- route `left` must stand strictly before `right`. The patterns compared passed the filter, so
-- `patternSpecificity` is the rank.
unfoldable pub goes_before : Route → Route → Bool
goes_before left right =
    if rank_of left.model == rank_of right.model
    then (if left.priority == right.priority
        then text_lt left.id right.id
        else ltb right.priority left.priority)
    else ltb (rank_of right.model) (rank_of left.model)

-- `Array.prototype.sort` is stable: an item goes behind those that need not follow it.
unfoldable pub insert : Route → List Route → List Route
insert r [] = r ∷ []
insert r (s ∷ rest) = if goes_before s r then s ∷ insert r rest else r ∷ s ∷ rest

unfoldable pub sort : List Route → List Route
unfolding insert
sort [] = []
sort (r ∷ rest) = insert r (sort rest)

-- The filter of `resolveCandidates`; a pattern is looked at only if its route is enabled.
unfoldable pub matching : List Route → Text → Result (List Route)
matching [] requested = ok []
matching (r ∷ rest) requested =
    let others = matching rest requested in
    if r.enabled
    then (do
      fits ← matches_model_pattern r.model requested
      found ← others
      ok (if fits then r ∷ found else found))
    else others

unfoldable pub resolve_candidates : List Route → Text → Result (List Route)
resolve_candidates routes model = do
  requested ← assert_model_id model
  found ← matching routes requested
  ok (sort found)

first : List Route → Result Route
first [] = err (router_error no_route "select-route")
first (best ∷ rest) = ok best

unfoldable pub select_route : List Route → Text → Result Route
unfolding first
select_route routes model = do candidates ← resolve_candidates routes model; first candidates

unfoldable pub is_free_candidate : Option ModelEconomics → Bool
is_free_candidate none = false
is_free_candidate (some economics) = is_free_economics economics

-- The answer of `lookup` is that of one moment.
unfoldable pub filter_free_candidates : List Route → (Route → Option ModelEconomics) → List Route
filter_free_candidates [] lookup = []
filter_free_candidates (r ∷ rest) lookup =
    if not r.free_only || is_free_candidate (lookup r)
    then r ∷ filter_free_candidates rest lookup
    else filter_free_candidates rest lookup
