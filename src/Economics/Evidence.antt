-- ===== src/Economics/Evidence.antt =====
-- packages/providers/src/economics.ts: what a classification is evidence of.
use goatrouter.Common.{
  ◌≤◌, ◌≡◌, ◌↔◌, ◌⊎◌, refl, true, false, ◌||◌, none, some, Text, codes, any, all, length, All, ltb,
  ◌==◌, arith, inl, inr, Bool-cases, Option-cases,
}
use goatrouter.Economics.{
  is_free_economics, priced_dimensions, is_price, Amount, nought, above, below, not_finite, is_zero,
  is_positive, read_amount, marker_set, free_tier_keys, free_preview_keys, by_markers, read_price,
  readings, by_pricing, classify_model_economics,
}
use goatrouter.Value.{
  Value, undefined, null, scalar, boolean, string, array, object, Fields, plain_fields, get,
}

module _ (number : Text → Amount) where
  -- A price: a string of 1 to 32 units that is a price literal, of this amount.
  pub record IsPrice (v : Value) (amount : Amount) : Type 0 where
    pub literal : Text
    pub read : v ≡ string literal
    pub nonempty : 1 ≤ length literal
    pub bounded : length literal ≤ 32
    pub well_formed : is_price literal ≡ true
    pub amounts : number literal ≡ amount

  amount_of : (a : Amount) → is_zero (read_amount a) ≡ true → a ≡ nought
  amount_of not_finite h = cc h
  amount_of nought h = refl
  amount_of below h = cc h
  amount_of above h = cc h

  zero-IsPrice : (v : Value) → is_zero (read_price number v) ≡ true → IsPrice v nought
  unfolding read_price
  zero-IsPrice (string s) h = elim (Bool-cases (length s == 0 || ltb 32 (length s))) [
    | inl outside ↦ cc (rw outside at h)
    | inr inside ↦ elim (Bool-cases (is_price s)) [
      | inr wild ↦ cc (rw (inside, wild) at h)
      | inl fits ↦ record {
        literal = s;
        read = refl;
        nonempty = ground arith;
        bounded = ground arith;
        well_formed = fits;
        amounts = amount_of (number s) (rw (inside, fits) at h);
      }
    ]
  ]
  zero-IsPrice undefined h = cc h
  zero-IsPrice null h = cc h
  zero-IsPrice scalar h = cc h
  zero-IsPrice (boolean b) h = cc h
  zero-IsPrice (array items) h = cc h
  zero-IsPrice (object plain props) h = cc h

  -- No dimension of the pricing is proven to cost something.
  abbrev pub Unpriced : Fields → Type 0
  Unpriced pricing =
      All (λ d. is_positive (read_price number (get d pricing)) ≡ false) priced_dimensions

  -- Every dimension of the pricing is a price literal for nothing.
  abbrev pub ProvenZero : Fields → Type 0
  ProvenZero pricing = All (λ d. IsPrice (get d pricing) nought) priced_dimensions

  abbrev pub Marked : Fields → Type 0
  Marked own = (marker_set own free_tier_keys ≡ true) ⊎ (marker_set own free_preview_keys ≡ true)

  -- A plain entry whose pricing, if it has a plain one, costs nothing that is proven, and that is
  -- either proven to cost nothing or marked.
  pub record IsFree (entry : Value) : Type 0 where
    pub own : Fields
    pub plain : plain_fields entry ≡ some own
    pub evidence :
        ((plain_fields (get (codes "pricing") own) ≡ none) × Marked own)
        ⊎ ((pricing : Fields) × (plain_fields (get (codes "pricing") own) ≡ some pricing)
            × Unpriced pricing
            × (ProvenZero pricing ⊎ Marked own))

  unpriced :
      (pricing : Fields) → any is_positive (readings number pricing) ≡ false → Unpriced pricing
  unfolding readings
  unpriced pricing h = (ground arith, (ground arith, (ground arith, (ground arith, tt))))

  proven_zero :
      (pricing : Fields) → all is_zero (readings number pricing) ≡ true → ProvenZero pricing
  unfolding readings
  proven_zero pricing h = (
    zero-IsPrice _ (ground arith),
    (
      zero-IsPrice _ (ground arith),
      (zero-IsPrice _ (ground arith), (zero-IsPrice _ (ground arith), tt)),
    ),
  )

  marked : (own : Fields) → is_free_economics (by_markers own) ≡ true → Marked own
  unfolding by_markers is_free_economics
  marked own h = ground arith

  classify-IsFree :
      (entry : Value)
      → is_free_economics (classify_model_economics number false entry) ≡ true
      → IsFree entry
  unfolding classify_model_economics by_pricing is_free_economics
  classify-IsFree entry h = elim (Option-cases (plain_fields entry)) [
    | inl odd ↦ cc (rw (odd, classify_model_economics) at h)
    | inr (own, plain) ↦ elim (Option-cases (plain_fields (get (codes "pricing") own))) [
      | inl absent ↦ record {
        own = own;
        plain = plain;
        evidence = inl (absent, marked own (rw (plain, absent) at h));
      }
      | inr (pricing, priced) ↦ elim (Bool-cases (any is_positive (readings number pricing))) [
        | inl costs ↦ cc (rw (plain, priced, costs) at h)
        | inr quiet ↦ elim (Bool-cases (all is_zero (readings number pricing))) [
          | inl zeros ↦ record {
            own = own;
            plain = plain;
            evidence =
                inr (pricing, priced, unpriced pricing quiet, inl (proven_zero pricing zeros));
          }
          | inr partial ↦ record {
            own = own;
            plain = plain;
            evidence = inr (
              pricing,
              priced,
              unpriced pricing quiet,
              inr (marked own (rw (plain, priced, quiet, partial) at h)),
            );
          }
        ]
      ]
    ]
  ]

  zero_read : (v : Value) → IsPrice v nought → is_zero (read_price number v) ≡ true
  unfolding read_price
  zero_read v p =
      let inside : (length p.literal == 0 || ltb 32 (length p.literal)) ≡ false =
        ground (arith, p.nonempty, p.bounded) in
      rw (p.read, inside, p.well_formed, p.amounts) refl

  Unpriced-any :
      (pricing : Fields) → Unpriced pricing → any is_positive (readings number pricing) ≡ false
  unfolding readings
  Unpriced-any pricing (a, (b, (c, (d, e)))) = ground arith

  ProvenZero-all :
      (pricing : Fields) → ProvenZero pricing → all is_zero (readings number pricing) ≡ true
  unfolding readings
  ProvenZero-all pricing (a, (b, (c, (d, e)))) =
      ground (arith, zero_read _ a, zero_read _ b, zero_read _ c, zero_read _ d)

  Marked-free : (own : Fields) → Marked own → is_free_economics (by_markers own) ≡ true
  unfolding by_markers is_free_economics
  Marked-free own (inl tier) = ground arith
  Marked-free own (inr preview) = ground arith

  priced_free :
      (own pricing : Fields)
      → Unpriced pricing
      → ProvenZero pricing ⊎ Marked own
      → is_free_economics (by_pricing number own pricing) ≡ true
  unfolding by_pricing is_free_economics
  priced_free own pricing quiet (inl zeros) =
      rw (Unpriced-any pricing quiet, ProvenZero-all pricing zeros) refl
  priced_free own pricing quiet (inr marks) =
      elim (Bool-cases (all is_zero (readings number pricing))) [
        | inl zeros ↦ rw (Unpriced-any pricing quiet, zeros) refl
        | inr partial ↦ rw (Unpriced-any pricing quiet, partial) (Marked-free own marks)
      ]

  IsFree-classify :
      (entry : Value)
      → IsFree entry
      → is_free_economics (classify_model_economics number false entry) ≡ true
  unfolding classify_model_economics
  IsFree-classify entry f = elim f.evidence [
    | inl (absent, marks) ↦ rw (f.plain, absent) (Marked-free f.own marks)
    | inr (pricing, priced, quiet, proof) ↦
        rw (f.plain, priced) (priced_free f.own pricing quiet proof)
  ]

-- The model of a provider that is no local runtime is classified as free exactly if its catalogue
-- entry is a plain object, no dimension of its pricing, where that is a plain object, is proven to
-- cost something, and either there is such a pricing and each of its four dimensions is a price
-- literal of 1 to 32 units that `Number` reads as zero, or the entry carries a marker of its own that
-- is exactly `true`.
pub classify_model_economics_iff :
    (number : Text → Amount) (entry : Value)
    → (is_free_economics (classify_model_economics number false entry) ≡ true) ↔ IsFree number entry
classify_model_economics_iff number entry =
    (classify-IsFree number entry, IsFree-classify number entry)
