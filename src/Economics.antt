-- ===== src/Economics.antt =====
-- packages/providers/src/economics.ts: what a model costs, by its entry in a catalogue.
-- `Number(value)` is a parameter that tells what the classification asks of its result.
pub mod Evidence
mod Tests
use Prim.Native.Nat.{ℕ}
use goatrouter.Common.{
  Bool, true, false, not, ◌&&◌, ◌||◌, Option, none, some, List, [], ◌∷◌, Text, codes, any, all,
  length, leb, ltb, ◌==◌, if◌then◌else◌, map,
}
use goatrouter.Value.{Value, boolean, string, Fields, plain_fields, get}

pub data ModelEconomics : Type 0 where
  free_verified free_tier free_preview local paid unknown : ModelEconomics

unfoldable pub is_free_economics : ModelEconomics → Bool
is_free_economics free_verified = true
is_free_economics free_tier = true
is_free_economics free_preview = true
is_free_economics local = true
is_free_economics paid = false
is_free_economics unknown = false

abbrev pub priced_dimensions : List Text
priced_dimensions = codes "prompt" ∷ codes "completion" ∷ codes "request" ∷ codes "image" ∷ []

abbrev is_digit : ℕ → Bool
is_digit c = leb b'0' c && leb c b'9'

-- `[0-9]*`.
drop_digits : Text → Text
drop_digits [] = []
drop_digits (c ∷ s) = if is_digit c then drop_digits s else c ∷ s

-- `[0-9]+$`.
abbrev digits_end : Text → Bool
digits_end s = ltb 0 (length s) && all is_digit s

-- `[-+]?[0-9]+$`.
abbrev signed_end : Text → Bool
signed_end [] = false
signed_end (c ∷ s) = if c == b'-' || c == b'+' then digits_end s else digits_end (c ∷ s)

-- `(?:[eE][-+]?[0-9]+)?$`.
abbrev exponent_end : Text → Bool
exponent_end [] = true
exponent_end (c ∷ s) = (c == b'e' || c == b'E') && signed_end s

abbrev starts_with_digit : Text → Bool
starts_with_digit [] = false
starts_with_digit (c ∷ s) = is_digit c

-- `(?:\.[0-9]+)?` and what follows.
unfoldable pub fraction_end : Text → Bool
unfolding drop_digits
fraction_end [] = true
fraction_end (c ∷ s) =
    if c == b'.' then starts_with_digit s && exponent_end (drop_digits s) else exponent_end (c ∷ s)

-- `(?:0|[1-9][0-9]*)` and what follows.
unfoldable pub integer_end : Text → Bool
unfolding drop_digits
integer_end [] = false
integer_end (c ∷ s) =
    if c == b'0' then fraction_end s else is_digit c && fraction_end (drop_digits s)

-- `PRICE_RE`.
unfoldable pub is_price : Text → Bool
is_price [] = false
is_price (c ∷ s) = if c == b'-' then integer_end s else integer_end (c ∷ s)

-- A number by what is asked of it.
pub data Amount : Type 0 where
  not_finite nought below above : Amount

pub data PriceReading : Type 0 where
  zero_price positive indeterminate : PriceReading

abbrev pub is_zero : PriceReading → Bool
is_zero zero_price = true
is_zero positive = false
is_zero indeterminate = false

abbrev pub is_positive : PriceReading → Bool
is_positive zero_price = false
is_positive positive = true
is_positive indeterminate = false

abbrev pub read_amount : Amount → PriceReading
read_amount not_finite = indeterminate
read_amount nought = zero_price
read_amount below = indeterminate
read_amount above = positive

-- `own(entry, key) === true`.
abbrev pub is_true : Value → Bool
is_true (boolean b) = b
is_true _ = false

unfoldable pub marker_set : Fields → List Text → Bool
marker_set entry keys = any (λ key. is_true (get key entry)) keys

abbrev pub free_tier_keys : List Text
free_tier_keys = codes "free_tier" ∷ codes "freeTier" ∷ []

abbrev pub free_preview_keys : List Text
free_preview_keys = codes "free_preview" ∷ codes "freePreview" ∷ []

-- Past the pricing.
unfoldable pub by_markers : Fields → ModelEconomics
by_markers entry =
    if marker_set entry free_tier_keys
    then free_tier
    else if marker_set entry free_preview_keys
    then free_preview
    else unknown

module _ (number : Text → Amount) where
  unfoldable pub read_price : Value → PriceReading
  read_price (string s) =
      if length s == 0 || ltb 32 (length s)
      then indeterminate
      else if not (is_price s)
      then indeterminate
      else read_amount (number s)
  read_price _ = indeterminate

  unfoldable pub readings : Fields → List PriceReading
  readings pricing = map (λ dimension. read_price (get dimension pricing)) priced_dimensions

  -- For an entry with a plain `pricing`.
  unfoldable pub by_pricing : Fields → Fields → ModelEconomics
  by_pricing entry pricing =
      if any is_positive (readings pricing)
      then paid
      else if all is_zero (readings pricing)
      then free_verified
      else by_markers entry

  unfoldable pub classify_model_economics : Bool → Value → ModelEconomics
  classify_model_economics allow_loopback entry =
      if allow_loopback then local else elim (plain_fields entry) [
        | none ↦ unknown
        | some own ↦ elim (plain_fields (get (codes "pricing") own)) [
          | none ↦ by_markers own
          | some pricing ↦ by_pricing own pricing
        ]
      ]
