-- ===== src/Address/Forms.antt =====
-- packages/providers/src/egress.ts: the address that a numeric form stands for.
use Prim.Native.Nat.{ℕ, ◌^◌}
use goatrouter.Common.{
  ◌+◌, ◌-◌, ◌*◌, ◌≤◌, ◌<◌, ◌≡◌, subst, false, some, List, [], ◌∷◌, Text, All, any, length, leb, ltb,
  arith, inl, inr, Bool-cases, Option-cases,
}
use goatrouter.Address.{
  Ipv4, ipv4_from, split, part_values, split_last, read_bytes, combine, parse_loose_ipv4,
  address_value,
}
use goatrouter.Address.Octets.{IsIpv4}

ipv4_from-IsIpv4 : (n : ℕ) → IsIpv4 (ipv4_from n)
ipv4_from-IsIpv4 n = record {
  first = omega arith;
  second = omega arith;
  third = omega arith;
  fourth = omega arith;
}

address_value-ipv4_from : (n : ℕ) → n ≤ 0xffffffff → address_value (ipv4_from n) ≡ n
address_value-ipv4_from n h = omega arith

bytes-All :
    (values : List ℕ)
    → any (λ value. ltb 0xff value) values ≡ false
    → All (λ value. value < 256) values
bytes-All [] h = tt
bytes-All (v ∷ values) h = (ground arith, bytes-All values (ground arith))

-- A form of up to four parts: all but the last are bytes, the last takes the bytes that are left, and
-- together they are the address.
pub record IsForm (input : Text) (a : Ipv4) : Type 0 where
  pub values : List ℕ
  pub leading : List ℕ
  pub last : ℕ
  pub few : length (split b'.' input) ≤ 4
  pub read : part_values (split b'.' input) ≡ some values
  pub parts : split_last values ≡ some (leading, last)
  pub bytes : All (λ value. value < 256) leading
  pub fits : last < 2 ^ (8 * (4 - length leading))
  pub value : address_value a ≡ read_bytes 0 leading * 2 ^ (8 * (4 - length leading)) + last
  pub is_ipv4 : IsIpv4 a

record Combined (leading : List ℕ) (last : ℕ) (a : Ipv4) : Type 0 where
  bytes : All (λ value. value < 256) leading
  fits : last < 2 ^ (8 * (4 - length leading))
  value : address_value a ≡ read_bytes 0 leading * 2 ^ (8 * (4 - length leading)) + last
  is_ipv4 : IsIpv4 a

combine-Combined :
    (leading : List ℕ) (last : ℕ) (a : Ipv4)
    → combine leading last ≡ some a
    → Combined leading last a
unfolding combine
combine-Combined leading last a h =
    let room = 2 ^ (8 * (4 - length leading)) in
    let combined = read_bytes 0 leading * room + last in
    elim (Bool-cases (any (λ value. ltb 0xff value) leading)) [
      | inl large ↦ cc (rw large at h)
      | inr bytes ↦ elim (Bool-cases (leb room last)) [
        | inl long ↦ cc (rw (bytes, long) at h)
        | inr fits ↦ elim (Bool-cases (ltb 0xffffffff combined)) [
          | inl over ↦ cc (rw (bytes, fits, over) at h)
          | inr within ↦
              let same : ipv4_from combined ≡ a = cc (rw (bytes, fits, within) at h) in
              subst (Combined leading last) same (record {
                bytes = bytes-All leading bytes;
                fits = ground arith;
                value = address_value-ipv4_from combined (ground arith);
                is_ipv4 = ipv4_from-IsIpv4 combined;
              })
        ]
      ]
    ]

-- A text that is read as an IPv4 address has at most four parts, of which all but the last are bytes
-- and the last fills the bytes that are left; the address is four bytes and has the value of
-- the parts.
pub parse_loose_ipv4-IsForm :
    (input : Text) (a : Ipv4) → parse_loose_ipv4 input ≡ some a → IsForm input a
unfolding parse_loose_ipv4
parse_loose_ipv4-IsForm input a h =
    let parts = split b'.' input in
    elim (Bool-cases (ltb 4 (length parts))) [
      | inl many ↦ cc (rw many at h)
      | inr few ↦ elim (Option-cases (part_values parts)) [
        | inl odd ↦ cc (rw (few, odd) at h)
        | inr (values, read) ↦ elim (Option-cases (split_last values)) [
          | inl empty ↦ cc (rw (few, read, empty) at h)
          | inr (p, split_at) ↦
              let c = combine-Combined p.0 p.1 a (rw (few, read, split_at) at h) in
              record {
                values = values;
                leading = p.0;
                last = p.1;
                few = ground arith;
                read = read;
                parts = split_at;
                bytes = c.bytes;
                fits = c.fits;
                value = c.value;
                is_ipv4 = c.is_ipv4;
              }
        ]
      ]
    ]
