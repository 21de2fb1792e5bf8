-- ===== src/Model.antt =====
-- packages/router/src/model.ts: model ids and route patterns. A string is the list of its UTF-16
-- code units; the `typeof` tests hold by the types.
pub mod Matching
pub mod Safety
use Prim.Native.Nat.{ℕ}
use goatrouter.Common.{
  ◌-◌, Bool, true, false, not, ◌&&◌, ◌||◌, List, [], ◌∷◌, Text, codes, text_eq, leb, ltb, ◌==◌,
  if◌then◌else◌, length, all,
}
use goatrouter.Errors.{Result, ok, err, router_error, invalid_model, invalid_route_config, ◌>>=◌}

-- `[A-Za-z0-9]`.
unfoldable pub is_alnum : ℕ → Bool
is_alnum c = (leb b'A' c && leb c b'Z') || (leb b'a' c && leb c b'z') || (leb b'0' c && leb c b'9')

-- `[A-Za-z0-9._:/-]`.
unfoldable pub is_model_char : ℕ → Bool
unfolding is_alnum
is_model_char c = is_alnum c || c == b'.' || c == b'_' || c == b':' || c == b'/' || c == b'-'

-- `[A-Za-z0-9._:/-]*[A-Za-z0-9]` up to the end.
matches_rest : Text → Bool
matches_rest [] = false
matches_rest (c ∷ []) = is_alnum c
matches_rest (c ∷ d ∷ s) = is_model_char c && matches_rest (d ∷ s)

-- `MODEL_ID_RE`; `{0,126}` and the two ends leave 127 characters after the first.
matches_model_re : Text → Bool
unfolding matches_rest
matches_model_re [] = false
matches_model_re (c ∷ []) = is_alnum c
matches_model_re (c ∷ d ∷ s) = is_alnum c && (leb (length (d ∷ s)) 127 && matches_rest (d ∷ s))

unfoldable pub starts_with : Text → Text → Bool
starts_with [] s = true
starts_with (a ∷ p) [] = false
starts_with (a ∷ p) (b ∷ s) = a == b && starts_with p s

-- `s.includes(needle)`.
unfoldable pub includes : Text → Text → Bool
unfolding starts_with
includes needle [] = starts_with needle []
includes needle (c ∷ s) = starts_with needle (c ∷ s) || includes needle s

abbrev max_model_length : ℕ
max_model_length = 128

unfoldable pub is_model_id : Text → Bool
unfolding matches_model_re
is_model_id model =
    ltb 0 (length model)
    && (leb (length model) max_model_length
        && (matches_model_re model
            && (not (includes (codes "..") model)
                && (not (includes (codes "//") model) && not (includes (codes ":/") model)))))

unfoldable pub assert_model_id : Text → Result Text
assert_model_id model =
    if is_model_id model then ok model else err (router_error invalid_model "model-id")

-- `pattern.endsWith("*")`.
unfoldable pub ends_with_star : Text → Bool
ends_with_star [] = false
ends_with_star (c ∷ []) = c == b'*'
ends_with_star (c ∷ d ∷ s) = ends_with_star (d ∷ s)

-- `pattern.slice(0, -1)`.
unfoldable pub drop_last : Text → Text
drop_last [] = []
drop_last (c ∷ []) = []
drop_last (c ∷ d ∷ s) = c ∷ drop_last (d ∷ s)

unfoldable pub assert_model_pattern : Text → Result Text
assert_model_pattern pattern =
    if ends_with_star pattern
    then (if length (drop_last pattern) == 0 || not (is_model_id (drop_last pattern))
        then err (router_error invalid_route_config "pattern-prefix")
        else ok pattern)
    else (if not (is_model_id pattern)
        then err (router_error invalid_route_config "pattern-exact")
        else ok pattern)

-- The literal comparison of `matchesModelPattern`, past the two assertions.
abbrev pub compares : Text → Text → Bool
compares pattern model =
    if ends_with_star pattern then starts_with (drop_last pattern) model else text_eq model pattern

unfoldable pub matches_model_pattern : Text → Text → Result Bool
matches_model_pattern pattern model = do
  valid_pattern ← assert_model_pattern pattern
  valid_model ← assert_model_id model
  ok (compares valid_pattern valid_model)

-- The rank of `patternSpecificity`, past the assertion.
abbrev pub rank_of : Text → ℕ
rank_of pattern = if ends_with_star pattern then length pattern - 1 else 129

unfoldable pub pattern_specificity : Text → Result ℕ
pattern_specificity pattern = do ok (rank_of (← assert_model_pattern pattern))
