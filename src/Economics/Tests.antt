-- ===== src/Economics/Tests.antt =====
-- Catalogue entries that are free and that are not, and the theorem on them there.
use goatrouter.Common.{◌≡◌, ◌↔◌, refl, true, false, Text, codes, text_eq, if◌then◌else◌}
use goatrouter.Economics.{
  Amount, nought, above, free_verified, paid, unknown, is_free_economics, fraction_end, integer_end,
  is_price, marker_set, by_markers, read_price, readings, by_pricing, classify_model_economics,
}
use goatrouter.Economics.Evidence.{IsFree, classify_model_economics_iff}
use goatrouter.Value.{Value, boolean, string, object, Fields, no_fields, field, get}

-- `Number`, at the literals below.
abbrev number : Text → Amount
number s = if text_eq s (codes "0.50") then above else nought

abbrev prices : Text → Text → Fields
prices prompt image = field (codes "prompt") (string prompt) (
    field (codes "completion") (string (codes "0")) (
      field (codes "request") (string (codes "0.0"))
        (field (codes "image") (string image) no_fields)))

abbrev entry_of : Fields → Value
entry_of pricing = object true (
    field (codes "pricing") (object true pricing)
      (field (codes "free_tier") (boolean true) no_fields))

abbrev free_entry : Value
free_entry = entry_of (prices (codes "0e0") (codes "-0"))

free_entry_verified : classify_model_economics number false free_entry ≡ free_verified
unfolding classify_model_economics by_pricing readings read_price is_price integer_end fraction_end
    get text_eq
free_entry_verified = refl

-- A marker does not outweigh a price.
priced_entry_paid :
    classify_model_economics number false (entry_of (prices (codes "0.50") (codes "0"))) ≡ paid
unfolding classify_model_economics by_pricing readings read_price is_price integer_end fraction_end
    get text_eq
priced_entry_paid = refl

bare_entry_unknown : classify_model_economics number false (object true no_fields) ≡ unknown
unfolding classify_model_economics get by_markers marker_set
bare_entry_unknown = refl

classify_model_economics_iff_example :
    (is_free_economics (classify_model_economics number false free_entry) ≡ true)
    ↔ IsFree number free_entry
classify_model_economics_iff_example = classify_model_economics_iff number free_entry
