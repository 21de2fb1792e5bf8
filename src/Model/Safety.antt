-- ===== src/Model/Safety.antt =====
-- packages/router/src/model.ts: what a valid model id cannot hold.
use goatrouter.Common.{
  ◌≡◌, ◌≢◌, refl, ap, true, false, [], ◌∷◌, ◌++◌, arith, Text, codes, length, All, ◌≤◌,
}
use goatrouter.Model.{is_model_char, matches_rest, matches_model_re, includes, is_model_id}
use goatrouter.Model.Matching.{starts_with-append}

-- The text does not stand inside the other.
abbrev pub Avoids : Text → Text → Type 0
Avoids needle s = (before after : Text) → s ≢ before ++ (needle ++ after)

includes_inside :
    (needle before after : Text) → includes needle (before ++ (needle ++ after)) ≡ true
unfolding includes
includes_inside [] [] [] = refl
includes_inside [] [] (c ∷ after) = refl
includes_inside (n ∷ needle) [] after = ground (arith, starts_with-append (n ∷ needle) after)
includes_inside needle (b ∷ before) after = ground (arith, includes_inside needle before after)

includes-Avoids : (needle s : Text) → includes needle s ≡ false → Avoids needle s
includes-Avoids needle s h before after e =
    cc (includes_inside needle before after, ap (includes needle) e)

matches_rest-All : (s : Text) → matches_rest s ≡ true → All (λ c. is_model_char c ≡ true) s
unfolding matches_rest is_model_char
matches_rest-All [] h = tt
matches_rest-All (c ∷ []) h = (ground arith, tt)
matches_rest-All (c ∷ d ∷ s) h = (ground arith, matches_rest-All (d ∷ s) (ground arith))

matches_model_re-All : (s : Text) → matches_model_re s ≡ true → All (λ c. is_model_char c ≡ true) s
unfolding matches_model_re is_model_char
matches_model_re-All [] h = tt
matches_model_re-All (c ∷ []) h = (ground arith, tt)
matches_model_re-All (c ∷ d ∷ s) h = (ground arith, matches_rest-All (d ∷ s) (ground arith))

-- Every unit of a valid model id is a letter, a digit or one of `.`, `_`, `:`, `/`, `-`; the id is
-- at most 128 units long and not empty; and neither "..", "//" nor ":/" stands anywhere in it.
pub is_model_id_safe :
    (s : Text)
    → is_model_id s ≡ true
    → All (λ c. is_model_char c ≡ true) s
      × (length s ≤ 128)
      × (s ≢ [])
      × Avoids (codes "..") s
      × Avoids (codes "//") s
      × Avoids (codes ":/") s
unfolding is_model_id
is_model_id_safe s h = (
  matches_model_re-All s (ground arith),
  ground arith,
  λ e. ground arith,
  includes-Avoids (codes "..") s (ground arith),
  includes-Avoids (codes "//") s (ground arith),
  includes-Avoids (codes ":/") s (ground arith),
)
