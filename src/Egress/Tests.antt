-- ===== src/Egress/Tests.antt =====
-- Hosts and addresses, and the theorems on the check before a request there.
use Prim.Native.Nat.{ℕ}
use goatrouter.Common.{
  ◌↔◌, ◌⊎◌, ◌≡◌, refl, true, false, ◌||◌, Option, none, some, List, [], ◌∷◌, Text, All, codes,
  text_eq, all, any, ◌==◌, if◌then◌else◌, trim, is_space, trim_start, trim_end, arith,
}
use goatrouter.Model.{is_alnum, starts_with, drop_last}
use goatrouter.Address.{
  Ipv4, quad, split, is_digit, is_hex, parse_digits, is_hex_part, is_octal_part, is_decimal_part,
  drop_two, drop_one, part_value, part_values, split_last, read_bytes, combine, parse_loose_ipv4,
  in_range, is_reserved, is_private, classify_ipv4, public_address, loopback_address,
}
use goatrouter.Address.Octets.{IsIpv4, by_bytes, classify_ipv4-bytes}
use goatrouter.Address.Forms.{IsForm, parse_loose_ipv4-IsForm}
use goatrouter.Ipv6.{
  to_lower_case, is_group, hex_pair, after_prefix, mapped_ipv4, full_mapped_ipv4, classify_blocks,
  classify_ipv6,
}
use goatrouter.Egress.{
  default_egress_policy, permits, is_denied_name, ends_with, strip_brackets, drop_dot,
  is_label_rest, is_label, is_hostname, last_part, ends_in_number, classify_name, classify,
  assert_egress_allowed, assert_resolved_address_allowed, assert_each_allowed, check_resolved,
  assert_request_egress_allowed,
}
use goatrouter.Egress.Requests.{
  IsNumeric, IsReachable, IsNameAllowed, IsResolved, assert_request_egress_allowed_iff,
  assert_request_egress_allowed-IsReachable,
}

-- Tells colons from digits and dots, which is enough for the texts below.
abbrev is_ip : Text → ℕ
is_ip s =
    if any (λ c. c == b':') s then 6 else (if all (λ c. is_digit c || c == b'.') s then 4 else 0)

abbrev resolver : Text → Option (List Text)
resolver s =
    if text_eq s (codes "api.example.com")
    then some (codes "93.184.216.34" ∷ codes "8.8.8.8" ∷ [])
    else none

abbrev host : Text
host = codes "api.example.com"

four_forms :
    (parse_loose_ipv4 (codes "127.1") ≡ some (quad 127 0 0 1))
    × (parse_loose_ipv4 (codes "0177.0.0.1") ≡ some (quad 127 0 0 1))
    × (parse_loose_ipv4 (codes "0x7f000001") ≡ some (quad 127 0 0 1))
    × (parse_loose_ipv4 (codes "2130706433") ≡ some (quad 127 0 0 1))
    × (parse_loose_ipv4 (codes "999.999.999.999") ≡ none)
unfolding parse_loose_ipv4 split part_values part_value is_hex_part is_octal_part is_decimal_part
    is_hex parse_digits drop_two drop_one split_last combine read_bytes
four_forms = (refl, refl, refl, refl, refl)

-- Forms of loopback addresses that the source takes for public ones: a mapped address that is written
-- out with dots, and zeros before `::1`.
loopback_forms :
    (classify_ipv6 (codes "0:0:0:0:0:ffff:127.0.0.1") ≡ public_address)
    × (classify_ipv6 (codes "0::1") ≡ public_address)
    × (classify_ipv6 (codes "::ffff:127.0.0.1") ≡ loopback_address)
unfolding classify_ipv6 to_lower_case mapped_ipv4 full_mapped_ipv4 after_prefix hex_pair is_group
    classify_blocks split parse_loose_ipv4 part_values part_value is_hex_part is_octal_part
    is_decimal_part is_hex parse_digits drop_two drop_one split_last combine read_bytes text_eq
    classify_ipv4 in_range is_reserved is_private
loopback_forms = (refl, refl, refl)

reads_loopback : parse_loose_ipv4 (codes "127.1") ≡ some (quad 127 0 0 1)
reads_loopback = four_forms.0

parse_loose_ipv4-IsForm_example : IsForm (codes "127.1") (quad 127 0 0 1)
parse_loose_ipv4-IsForm_example =
    parse_loose_ipv4-IsForm (codes "127.1") (quad 127 0 0 1) reads_loopback

metadata-IsIpv4 : IsIpv4 (quad 169 254 169 254)
metadata-IsIpv4 = record {
  first = omega arith;
  second = omega arith;
  third = omega arith;
  fourth = omega arith;
}

classify_ipv4-bytes_example : classify_ipv4 (quad 169 254 169 254) ≡ by_bytes (quad 169 254 169 254)
classify_ipv4-bytes_example = classify_ipv4-bytes (quad 169 254 169 254) metadata-IsIpv4

accepts_host : assert_request_egress_allowed is_ip resolver host default_egress_policy ≡ permits
unfolding assert_request_egress_allowed assert_egress_allowed check_resolved assert_each_allowed
    assert_resolved_address_allowed classify classify_name is_denied_name to_lower_case drop_dot
    ends_with strip_brackets starts_with drop_last trim_start trim_end is_space text_eq is_hostname
    is_label is_label_rest is_alnum last_part ends_in_number parse_loose_ipv4 split part_values
    part_value is_hex_part is_octal_part is_decimal_part is_hex parse_digits drop_two drop_one
    split_last combine read_bytes classify_ipv4 in_range is_reserved is_private
accepts_host = refl

is_name : (is_ip (strip_brackets (trim host)) == 0) ≡ true
unfolding strip_brackets starts_with ends_with trim_start trim_end is_space
is_name = refl

assert_request_egress_allowed_iff_example :
    (assert_request_egress_allowed is_ip resolver host default_egress_policy ≡ permits) ↔ (
      IsNameAllowed is_ip default_egress_policy host
      × (((is_ip (strip_brackets (trim host)) == 0) ≡ false)
          ⊎ IsResolved is_ip default_egress_policy resolver (strip_brackets (trim host))))
assert_request_egress_allowed_iff_example =
    assert_request_egress_allowed_iff is_ip default_egress_policy resolver host

assert_request_egress_allowed-IsReachable_example :
    (address : Text) × (addresses : List Text) × (resolver (strip_brackets (trim host))
      ≡ some (address ∷ addresses))
    × All
        (λ x. (a : Ipv4) → IsNumeric is_ip x a → IsReachable default_egress_policy a)
        (address ∷ addresses)
assert_request_egress_allowed-IsReachable_example =
    assert_request_egress_allowed-IsReachable is_ip default_egress_policy resolver host accepts_host
      is_name
