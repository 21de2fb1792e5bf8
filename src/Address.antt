-- ===== src/Address.antt =====
-- packages/providers/src/egress.ts: the numeric forms of IPv4 addresses, and their ranges.
pub mod Octets
pub mod Forms
use Prim.Native.Nat.{ℕ, ◌/◌, ◌%◌, ◌^◌}
use goatrouter.Common.{
  ◌+◌, ◌-◌, ◌*◌, Bool, false, ◌&&◌, ◌||◌, Option, none, some, List, [], ◌∷◌, Text, all, any, length,
  leb, ltb, ◌==◌, if◌then◌else◌,
}

-- `s.split(sep)` for one character: at least one part.
unfoldable pub split : ℕ → Text → List Text
split sep [] = [] ∷ []
split sep (c ∷ s) = elim (split sep s) [
  | [] ↦ [] ∷ []
  | part ∷ parts ↦ if c == sep then [] ∷ part ∷ parts else (c ∷ part) ∷ parts
]

pub record Ipv4 : Type 0 where
  pub first : ℕ
  pub second : ℕ
  pub third : ℕ
  pub fourth : ℕ

-- `ipv4From`: the bytes of a number, from the high one.
abbrev pub ipv4_from : ℕ → Ipv4
ipv4_from value = record {
  first = value / 2 ^ 24 % 256;
  second = value / 2 ^ 16 % 256;
  third = value / 2 ^ 8 % 256;
  fourth = value % 256;
}

abbrev pub is_digit : ℕ → Bool
is_digit c = leb b'0' c && leb c b'9'

-- `[0-9a-fA-F]`.
unfoldable pub is_hex : ℕ → Bool
is_hex c = is_digit c || (leb b'a' c && leb c b'f') || (leb b'A' c && leb c b'F')

abbrev pub digit_value : ℕ → ℕ
digit_value c =
    if is_digit c then c - b'0' else (if leb b'a' c then c - b'a' + 10 else c - b'A' + 10)

-- `Number.parseInt(s, radix)` of digits, after those that are read.
unfoldable pub parse_digits : ℕ → ℕ → Text → ℕ
parse_digits radix read [] = read
parse_digits radix read (c ∷ s) = parse_digits radix (read * radix + digit_value c) s

abbrev pub max_safe_integer : ℕ
max_safe_integer = 9007199254740991

abbrev is_octal : ℕ → Bool
is_octal c = leb b'0' c && leb c b'7'

-- `/^0[xX][0-9a-fA-F]+$/`, `/^0[0-7]+$/` and `/^(0|[1-9][0-9]*)$/`.
unfoldable pub is_hex_part : Text → Bool
is_hex_part (a ∷ b ∷ c ∷ s) = a == b'0' && ((b == b'x' || b == b'X') && all is_hex (c ∷ s))
is_hex_part _ = false

unfoldable pub is_octal_part : Text → Bool
is_octal_part (a ∷ b ∷ s) = a == b'0' && all is_octal (b ∷ s)
is_octal_part _ = false

unfoldable pub is_decimal_part : Text → Bool
is_decimal_part [] = false
is_decimal_part (a ∷ []) = is_digit a
is_decimal_part (a ∷ b ∷ s) = leb b'1' a && (leb a b'9' && all is_digit (b ∷ s))

unfoldable pub drop_two : Text → Text
drop_two (a ∷ b ∷ s) = s
drop_two _ = []

unfoldable pub drop_one : Text → Text
drop_one (a ∷ s) = s
drop_one _ = []

-- One part of a dotted form; a double past 2 ^ 53 is no safe integer.
unfoldable pub part_value : Text → Option ℕ
part_value part =
    if is_hex_part part
    then some (parse_digits 16 0 (drop_two part))
    else (if is_octal_part part
        then some (parse_digits 8 0 (drop_one part))
        else (if is_decimal_part part then some (parse_digits 10 0 part) else none))

unfoldable pub part_values : List Text → Option (List ℕ)
part_values [] = some []
part_values (part ∷ parts) = elim (part_value part) [
  | none ↦ none
  | some value ↦
      if ltb max_safe_integer value
      then none
      else elim (part_values parts) [ none ↦ none | some values ↦ some (value ∷ values) ]
]

-- The last of the values and those before it, none of an empty list.
unfoldable pub split_last : List ℕ → Option (List ℕ × ℕ)
split_last [] = none
split_last (v ∷ values) = elim (split_last values) [
  | none ↦ some ([], v)
  | some p ↦ some (v ∷ p.0, p.1)
]

-- `(total << 8) | value` for bytes: at most three of them are read, so that nothing is cut off.
unfoldable pub read_bytes : ℕ → List ℕ → ℕ
read_bytes total [] = total
read_bytes total (value ∷ values) = read_bytes (total * 256 + value) values

-- The values as one address: the last one takes all the bytes that are left.
unfoldable pub combine : List ℕ → ℕ → Option Ipv4
combine leading last =
    let room = 2 ^ (8 * (4 - length leading)) in
    if any (λ value. ltb 0xff value) leading
    then none
    else (if leb room last
        then none
        else (if ltb 0xffffffff (read_bytes 0 leading * room + last)
            then none
            else some (ipv4_from (read_bytes 0 leading * room + last))))

unfoldable pub parse_loose_ipv4 : Text → Option Ipv4
parse_loose_ipv4 input =
    let parts = split b'.' input in
    if ltb 4 (length parts) then none else elim (part_values parts) [
      | none ↦ none
      | some values ↦ elim (split_last values) [ none ↦ none | some p ↦ combine p.0 p.1 ]
    ]

-- The address as one number, below 2 ^ 32 for bytes.
abbrev pub address_value : Ipv4 → ℕ
address_value a = a.first * 2 ^ 24 + a.second * 2 ^ 16 + a.third * 2 ^ 8 + a.fourth

abbrev pub quad : ℕ → ℕ → ℕ → ℕ → Ipv4
quad a b c d = record { first = a; second = b; third = c; fourth = d }

-- `inRange` for at least one bit: two numbers agree under the mask of the high `bits` when they
-- agree once the other bits are shifted out.
unfoldable pub in_range : Ipv4 → Ipv4 → ℕ → Bool
in_range address prefix bits =
    address_value address / 2 ^ (32 - bits) == address_value prefix / 2 ^ (32 - bits)

pub data Classification : Type 0 where
  loopback_address private_address denied_address public_address : Classification

-- Multicast, reserved, documentation and benchmarking ranges.
unfoldable pub is_reserved : Ipv4 → Bool
is_reserved a =
    in_range a (quad 224 0 0 0) 4
    || in_range a (quad 240 0 0 0) 4
    || in_range a (quad 192 0 2 0) 24
    || in_range a (quad 198 51 100 0) 24
    || in_range a (quad 203 0 113 0) 24
    || in_range a (quad 192 0 0 0) 24
    || in_range a (quad 198 18 0 0) 15

unfoldable pub is_private : Ipv4 → Bool
is_private a =
    in_range a (quad 10 0 0 0) 8
    || in_range a (quad 172 16 0 0) 12
    || in_range a (quad 192 168 0 0) 16
    || in_range a (quad 100 64 0 0) 10

unfoldable pub classify_ipv4 : Ipv4 → Classification
classify_ipv4 a =
    if in_range a (quad 127 0 0 0) 8
    then loopback_address
    else (if in_range a (quad 0 0 0 0) 8
        then loopback_address
        else (if in_range a (quad 169 254 0 0) 16
            then denied_address
            else (if is_reserved a
                then denied_address
                else (if is_private a then private_address else public_address))))
