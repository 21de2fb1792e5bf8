-- ===== src/Ipv6.antt =====
-- packages/providers/src/egress.ts: the classification of IPv6 addresses.
-- `toLowerCase` maps the two kinds of code units that become ASCII letters, capitals and the Kelvin
-- sign; no test of the source tells apart what it makes of the others.
use Prim.Native.Nat.{ℕ}
use goatrouter.Common.{
  any, ◌+◌, ◌*◌, Bool, true, false, ◌&&◌, ◌||◌, Option, none, some, List, [], ◌∷◌, map, Text, codes,
  text_eq, all, length, leb, ltb, ◌==◌, if◌then◌else◌,
}
use goatrouter.Address.{
  Ipv4, ipv4_from, is_hex, parse_digits, split, parse_loose_ipv4, Classification, loopback_address,
  private_address, denied_address, public_address, classify_ipv4,
}

abbrev lower_unit : ℕ → ℕ
lower_unit c = if leb b'A' c && leb c b'Z' then c + 32 else (if c == 0x212a then b'k' else c)

unfoldable pub to_lower_case : Text → Text
to_lower_case s = map lower_unit s

-- `/^([0-9a-f]{1,4}):([0-9a-f]{1,4})$/`, as one number.
unfoldable pub is_group : Text → Bool
is_group s = ltb 0 (length s) && (leb (length s) 4 && all is_hex s)

unfoldable pub hex_pair : List Text → Option ℕ
hex_pair (high ∷ low ∷ []) =
    if is_group high && is_group low
    then some (parse_digits 16 0 high * 65536 + parse_digits 16 0 low)
    else none
hex_pair _ = none

-- What follows a prefix, none where the text does not start with it.
unfoldable pub after_prefix : Text → Text → Option Text
after_prefix [] s = some s
after_prefix (a ∷ p) [] = none
after_prefix (a ∷ p) (b ∷ s) = elim (a == b) [ true ↦ after_prefix p s | false ↦ none ]

-- What `.` of an expression does not match.
abbrev is_line_end : ℕ → Bool
is_line_end c = c == 10 || c == 13 || c == 0x2028 || c == 0x2029

-- The IPv4 address of the form `::ffff:...`.
unfoldable pub mapped_ipv4 : Text → Option Ipv4
mapped_ipv4 s = elim (after_prefix (codes "::ffff:") s) [
  | none ↦ none
  | some embedded ↦
      if length embedded == 0 || any is_line_end embedded
      then none
      else elim (parse_loose_ipv4 embedded) [
        | some parsed ↦ some parsed
        | none ↦ elim (hex_pair (split b':' embedded)) [
          | none ↦ none
          | some value ↦ some (ipv4_from value)
        ]
      ]
]

-- And of the form `0:0:0:0:0:ffff:...`, in hexadecimal.
unfoldable pub full_mapped_ipv4 : Text → Option Ipv4
full_mapped_ipv4 s = elim (after_prefix (codes "0:0:0:0:0:ffff:") s) [
  | none ↦ none
  | some embedded ↦ elim (hex_pair (split b':' embedded)) [
    | none ↦ none
    | some value ↦ some (ipv4_from value)
  ]
]

-- `/^0(:0)*$/`.
abbrev all_zero : Text → Bool
all_zero s = all (λ part. text_eq part (codes "0")) (split b':' s)

-- `/^fe[89ab][0-9a-f]:/` and its kin: two tests, two more, and a colon.
abbrev is_block : (ℕ → Bool) → (ℕ → Bool) → (ℕ → Bool) → Text → Bool
is_block p q r (a ∷ b ∷ c ∷ d ∷ e ∷ s) = p a && (q b && (r c && (is_hex d && e == b':')))
is_block p q r _ = false

-- The blocks, past the mapped forms.
unfoldable pub classify_blocks : Text → Classification
classify_blocks s =
    if text_eq s (codes "::1") || text_eq s (codes "0:0:0:0:0:0:0:1")
    then loopback_address
    else (if text_eq s (codes "::") || all_zero s
        then loopback_address
        else (if is_block (λ c. c == b'f') (λ c. c == b'e')
              (λ c. c == b'8' || c == b'9' || c == b'a' || c == b'b') s
            then denied_address
            else (if is_block (λ c. c == b'f') (λ c. c == b'f') is_hex s
                then denied_address
                else (if is_block (λ c. c == b'f') (λ c. c == b'c' || c == b'd') is_hex s
                    then private_address
                    else public_address))))

unfoldable pub classify_ipv6 : Text → Classification
classify_ipv6 input =
    let s = to_lower_case input in
    elim (mapped_ipv4 s) [
      | some address ↦ classify_ipv4 address
      | none ↦ elim (full_mapped_ipv4 s) [
        | some address ↦ classify_ipv4 address
        | none ↦ classify_blocks s
      ]
    ]
