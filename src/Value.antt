-- ===== src/Value.antt =====
-- JavaScript values as far as the modelled validators look at them, and strings as UTF-8.
use Prim.Native.Nat.{ℕ}
use goatrouter.Common.{
  ◌+◌, Bool, true, false, ◌&&◌, Option, none, some, [], ◌∷◌, Text, text_eq, leb, ltb, if◌then◌else◌,
}

-- `scalar` is a number, a bigint, a symbol or a function, which no validator looks into. An object
-- knows whether its prototype is `Object.prototype` or null, and holds its own properties.
mutual
  pub data Value : Type 0 where
    undefined null scalar : Value
    boolean : Bool → Value
    string : Text → Value
    array : Items → Value
    object : Bool → Fields → Value

  pub data Items : Type 0 where
    no_items : Items
    item : Value → Items → Items

  pub data Fields : Type 0 where
    no_fields : Fields
    field : Text → Value → Fields → Fields

-- The own properties of a plain object, none for every other value.
abbrev pub plain_fields : Value → Option Fields
plain_fields (object true fields) = some fields
plain_fields _ = none

-- `entry.key` of a plain object; no key that is read stands in `Object.prototype`.
unfoldable pub get : Text → Fields → Value
get key no_fields = undefined
get key (field k v rest) = if text_eq k key then v else get key rest

-- Every own key is allowed.
unfoldable pub has_only_keys : (Text → Bool) → Fields → Bool
has_only_keys allowed no_fields = true
has_only_keys allowed (field k v rest) = allowed k && has_only_keys allowed rest

abbrev pub as_string : Value → Option Text
as_string (string s) = some s
as_string _ = none

abbrev is_high : ℕ → Bool
is_high c = leb 0xd800 c && ltb c 0xdc00

abbrev is_low : ℕ → Bool
is_low c = leb 0xdc00 c && ltb c 0xe000

-- `Buffer.byteLength(s, "utf8")`: a surrogate pair takes 4 bytes, a lone surrogate the 3 of U+FFFD.
unfoldable pub byte_length : Text → ℕ
byte_length [] = 0
byte_length (c ∷ []) = if ltb c 0x80 then 1 else if ltb c 0x800 then 2 else 3
byte_length (c ∷ d ∷ rest) = elim (is_high c && is_low d) [
  | true ↦ 4 + byte_length rest
  | false ↦ (if ltb c 0x80 then 1 else if ltb c 0x800 then 2 else 3) + byte_length (d ∷ rest)
]
