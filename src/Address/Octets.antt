-- ===== src/Address/Octets.antt =====
-- packages/providers/src/egress.ts: the ranges of IPv4 addresses, told from their bytes.
use Prim.Native.Nat.{ℕ, ◌/◌, ◌^◌}
use goatrouter.Common.{◌+◌, ◌*◌, ◌<◌, ◌≡◌, refl, Bool, ◌&&◌, ◌||◌, leb, ◌==◌, if◌then◌else◌, arith}
use goatrouter.Address.{
  Ipv4, quad, address_value, in_range, Classification, loopback_address, private_address,
  denied_address, public_address, is_reserved, is_private, classify_ipv4,
}

-- Four bytes.
pub record IsIpv4 (a : Ipv4) : Type 0 where
  pub first : a.first < 256
  pub second : a.second < 256
  pub third : a.third < 256
  pub fourth : a.fourth < 256

-- The ranges, byte by byte.
abbrev pub reserved_bytes : Ipv4 → Bool
reserved_bytes a =
    leb 224 a.first
    || (a.first == 192 && (a.second == 0 && a.third == 2))
    || (a.first == 198 && (a.second == 51 && a.third == 100))
    || (a.first == 203 && (a.second == 0 && a.third == 113))
    || (a.first == 192 && (a.second == 0 && a.third == 0))
    || (a.first == 198 && (a.second == 18 || a.second == 19))

abbrev pub private_bytes : Ipv4 → Bool
private_bytes a =
    a.first == 10
    || (a.first == 172 && (leb 16 a.second && leb a.second 31))
    || (a.first == 192 && a.second == 168)
    || (a.first == 100 && (leb 64 a.second && leb a.second 127))

abbrev pub by_bytes : Ipv4 → Classification
by_bytes a =
    if a.first == 127
    then loopback_address
    else (if a.first == 0
        then loopback_address
        else (if a.first == 169 && a.second == 254
            then denied_address
            else (if reserved_bytes a
                then denied_address
                else (if private_bytes a then private_address else public_address))))

-- The quotients that the ranges compare.
record IsShifted (a : Ipv4) : Type 0 where
  by_28 : address_value a / 2 ^ 28 ≡ a.first / 16
  by_24 : address_value a / 2 ^ 24 ≡ a.first
  by_22 : address_value a / 2 ^ 22 ≡ a.first * 4 + a.second / 64
  by_20 : address_value a / 2 ^ 20 ≡ a.first * 16 + a.second / 16
  by_17 : address_value a / 2 ^ 17 ≡ a.first * 128 + a.second / 2
  by_16 : address_value a / 2 ^ 16 ≡ a.first * 256 + a.second
  by_8 : address_value a / 2 ^ 8 ≡ a.first * 65536 + a.second * 256 + a.third

IsIpv4-IsShifted : (a : Ipv4) → IsIpv4 a → IsShifted a
IsIpv4-IsShifted a v = record {
  by_28 = omega (arith, v.first, v.second, v.third, v.fourth);
  by_24 = omega (arith, v.first, v.second, v.third, v.fourth);
  by_22 = omega (arith, v.first, v.second, v.third, v.fourth);
  by_20 = omega (arith, v.first, v.second, v.third, v.fourth);
  by_17 = omega (arith, v.first, v.second, v.third, v.fourth);
  by_16 = omega (arith, v.first, v.second, v.third, v.fourth);
  by_8 = omega (arith, v.first, v.second, v.third, v.fourth);
}

module _ (a : Ipv4) (v : IsIpv4 a) where
  in_range_4 : (in_range a (quad 224 0 0 0) 4 || in_range a (quad 240 0 0 0) 4) ≡ leb 224 a.first
  unfolding in_range
  in_range_4 = rw (IsIpv4-IsShifted a v).by_28 (ground (arith, v.first))

  in_range_8 : (n : ℕ) → in_range a (quad n 0 0 0) 8 ≡ (a.first == n)
  unfolding in_range
  in_range_8 n =
      let by : address_value (quad n 0 0 0) / 2 ^ 24 ≡ n = omega arith in
      rw ((IsIpv4-IsShifted a v).by_24, by) refl

  in_range_16 : (n m : ℕ) → m < 256 → in_range a (quad n m 0 0) 16 ≡ (a.first == n && a.second == m)
  unfolding in_range
  in_range_16 n m h =
      let by : address_value (quad n m 0 0) / 2 ^ 16 ≡ n * 256 + m = omega arith in
      rw ((IsIpv4-IsShifted a v).by_16, by) (ground (arith, v.second))

  in_range_24 :
      (n m k : ℕ)
      → m < 256
      → k < 256
      → in_range a (quad n m k 0) 24 ≡ (a.first == n && (a.second == m && a.third == k))
  unfolding in_range
  in_range_24 n m k h l =
      let by : address_value (quad n m k 0) / 2 ^ 8 ≡ n * 65536 + m * 256 + k = omega arith in
      rw ((IsIpv4-IsShifted a v).by_8, by) (ground (arith, v.second, v.third))

  in_range_15 :
      in_range a (quad 198 18 0 0) 15 ≡ (a.first == 198 && (a.second == 18 || a.second == 19))
  unfolding in_range
  in_range_15 = rw (IsIpv4-IsShifted a v).by_17 (ground (arith, v.second))

  in_range_12 :
      in_range a (quad 172 16 0 0) 12 ≡ (a.first == 172 && (leb 16 a.second && leb a.second 31))
  unfolding in_range
  in_range_12 = rw (IsIpv4-IsShifted a v).by_20 (ground (arith, v.second))

  in_range_10 :
      in_range a (quad 100 64 0 0) 10 ≡ (a.first == 100 && (leb 64 a.second && leb a.second 127))
  unfolding in_range
  in_range_10 = rw (IsIpv4-IsShifted a v).by_22 (ground (arith, v.second))

  is_reserved-bytes : is_reserved a ≡ reserved_bytes a
  unfolding is_reserved
  is_reserved-bytes =
      rw
        (
          in_range_4,
          in_range_24 192 0 2 (omega arith) (omega arith),
          in_range_24 198 51 100 (omega arith) (omega arith),
          in_range_24 203 0 113 (omega arith) (omega arith),
          in_range_24 192 0 0 (omega arith) (omega arith),
          in_range_15,
        )
        refl

  is_private-bytes : is_private a ≡ private_bytes a
  unfolding is_private
  is_private-bytes =
      rw (in_range_8 10, in_range_12, in_range_16 192 168 (omega arith), in_range_10) refl

  -- The masks of the ranges tell what the bytes of the address say: loopback is 127.* and 0.*,
  -- link-local 169.254.*, reserved 224.* and above with five blocks of documentation and benchmarks,
  -- and private 10.*, 172.16.* to 172.31.*, 192.168.* and 100.64.* to 100.127.*.
  pub classify_ipv4-bytes : classify_ipv4 a ≡ by_bytes a
  unfolding classify_ipv4
  classify_ipv4-bytes =
      rw
        (
          in_range_8 127,
          in_range_8 0,
          in_range_16 169 254 (omega arith),
          is_reserved-bytes,
          is_private-bytes,
        )
        refl
