-- ===== src/Model/Matching.antt =====
-- packages/router/src/model.ts: what a pattern matches, and how patterns rank.
use goatrouter.Common.{
  ℕ, ◌-◌, ◌<◌, ◌≡◌, ◌↔◌, ◌⊎◌, inl, inr, refl, ap, true, false, [], ◌∷◌, ◌++◌, arith, Text, codes,
  text_eq_iff, ◌==◌, length, Bool-cases,
}
use goatrouter.Errors.{ok}
use goatrouter.Model.{
  is_alnum, matches_rest, is_model_id, starts_with, assert_model_id, ends_with_star, drop_last,
  assert_model_pattern, matches_model_pattern, pattern_specificity,
}

-- A text that ends with a star is what comes before it and the star.
drop_last-star : (s : Text) → ends_with_star s ≡ true → s ≡ drop_last s ++ codes "*"
unfolding ends_with_star drop_last
drop_last-star [] h = ground arith
drop_last-star (c ∷ []) h = ground arith
drop_last-star (c ∷ d ∷ s) h = ground (arith, drop_last-star (d ∷ s) h)

star-append :
    (p : Text) → (ends_with_star (p ++ codes "*") ≡ true) × (drop_last (p ++ codes "*") ≡ p)
unfolding ends_with_star drop_last
star-append [] = ground arith
star-append (c ∷ []) = ground arith
star-append (c ∷ d ∷ s) = ground (arith, star-append (d ∷ s))

starts_with-split : (p s : Text) → starts_with p s ≡ true → (rest : Text) × (s ≡ p ++ rest)
unfolding starts_with
starts_with-split [] s h = (s, refl)
starts_with-split (a ∷ p) [] h = absurd (ground arith)
starts_with-split (a ∷ p) (b ∷ s) h =
    let (rest, e) = starts_with-split p s (ground arith) in (rest, ground arith)

pub starts_with-append : (p rest : Text) → starts_with p (p ++ rest) ≡ true
unfolding starts_with
starts_with-append [] rest = refl
starts_with-append (a ∷ p) rest = ground (arith, starts_with-append p rest)

matches_rest-plain : (s : Text) → matches_rest s ≡ true → ends_with_star s ≡ false
unfolding matches_rest ends_with_star is_alnum
matches_rest-plain [] h = refl
matches_rest-plain (c ∷ []) h = ground arith
matches_rest-plain (c ∷ d ∷ s) h = ground (arith, matches_rest-plain (d ∷ s))

-- A valid id does not end with a star.
pub is_model_id-plain : (s : Text) → is_model_id s ≡ true → ends_with_star s ≡ false
unfolding is_model_id ends_with_star is_alnum
is_model_id-plain [] h = refl
is_model_id-plain (c ∷ []) h = ground arith
is_model_id-plain (c ∷ d ∷ s) h = ground (arith, matches_rest-plain (d ∷ s))

-- The model is the pattern, a valid id; or the pattern is a valid id and a star, and the model is
-- that id with anything behind it that makes a valid id.
abbrev pub Covers : Text → Text → Type 0
Covers pattern model =
    (is_model_id model ≡ true)
    × (((is_model_id pattern ≡ true) × (model ≡ pattern))
        ⊎ ((id : Text) × (rest : Text) × (is_model_id id ≡ true)
            × (pattern ≡ id ++ codes "*")
            × (model ≡ id ++ rest)))

matches_Covers :
    (pattern model : Text) → matches_model_pattern pattern model ≡ ok true → Covers pattern model
unfolding matches_model_pattern assert_model_pattern assert_model_id
matches_Covers pattern model e = elim (Bool-cases (ends_with_star pattern)) [
  | inr plain ↦ (ground arith, inl (ground arith, ground (arith, text_eq_iff model pattern)))
  | inl star ↦
      let (rest, split) = starts_with-split (drop_last pattern) model (ground arith) in
      (
        ground arith,
        inr (drop_last pattern, rest, ground arith, drop_last-star pattern star, split),
      )
]

is_model_id-nonempty : (s : Text) → is_model_id s ≡ true → (length s == 0) ≡ false
unfolding is_model_id
is_model_id-nonempty s h = ground arith

Covers-matches :
    (pattern model : Text) → Covers pattern model → matches_model_pattern pattern model ≡ ok true
unfolding matches_model_pattern assert_model_pattern assert_model_id
Covers-matches pattern model (valid, inl (id, same)) =
    ground (arith, is_model_id-plain pattern id, text_eq_iff model pattern)
Covers-matches pattern model (valid, inr (id, rest, valid_id, star, split)) =
    let (ends, front) = star-append id in
    rw (star, ends, front, valid_id, is_model_id-nonempty id valid_id, valid, split)
      (rw (ends, front) (ap ok (starts_with-append id rest)))

-- A pattern matches a model exactly if both are valid, and either they are equal, or the pattern
-- is an id with a star behind it and the model begins with that id.
pub matches_model_pattern_iff :
    (pattern model : Text) → (matches_model_pattern pattern model ≡ ok true) ↔ Covers pattern model
matches_model_pattern_iff pattern model =
    (matches_Covers pattern model, Covers-matches pattern model)

length-drop_last : (s : Text) → length (drop_last s) ≡ length s - 1
unfolding drop_last
length-drop_last [] = omega arith
length-drop_last (c ∷ []) = omega arith
length-drop_last (c ∷ d ∷ s) = omega (arith, length-drop_last (d ∷ s))

-- An exact pattern ranks above every wildcard, and of two wildcards the longer ranks higher.
pub specificity_order :
    (p q : Text) (m n : ℕ)
    → pattern_specificity p ≡ ok m
    → pattern_specificity q ≡ ok n
    → ends_with_star p ≡ true
    → (ends_with_star q ≡ false → m < n)
      × (ends_with_star q ≡ true → (m < n) ↔ (length p < length q))
unfolding pattern_specificity assert_model_pattern is_model_id
specificity_order p q m n ep eq star = (
  λ exact. ground (arith, length-drop_last p),
  λ wild. (ground (arith, length-drop_last p), ground (arith, length-drop_last q)),
)
