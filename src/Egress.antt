-- ===== src/Egress.antt =====
-- packages/providers/src/egress.ts: which hosts and addresses a provider may be reached at.
-- `isIP` of node:net is a parameter (4, 6, or 0 for a text that is no address), and so is the
-- resolver, none where it throws.
pub mod Requests
mod Tests
use Prim.Native.Nat.{ℕ}
use Prim.Native.String.{String}
use goatrouter.Common.{
  ◌+◌, Bool, true, false, not, ◌&&◌, ◌||◌, Option, none, some, List, [], ◌∷◌, Text, codes, text_eq,
  all, any, length, leb, ltb, ◌==◌, if◌then◌else◌, trim,
}
use goatrouter.Model.{is_alnum, starts_with, drop_last}
use goatrouter.Ipv6.{to_lower_case, classify_ipv6}
use goatrouter.Address.{
  is_digit, split, parse_loose_ipv4, Classification, loopback_address, private_address,
  denied_address, public_address, classify_ipv4,
}

pub record EgressPolicy : Type 0 where
  pub allow_loopback : Bool
  pub allow_private : Bool

abbrev pub default_egress_policy : EgressPolicy
default_egress_policy = record { allow_loopback = false; allow_private = false }

pub data ProviderErrorCode : Type 0 where
  invalid_provider_config unreachable : ProviderErrorCode

-- What a check does: it returns, or it throws a `ProviderError`.
pub data Verdict : Type 0 where
  permits : Verdict
  denies : ProviderErrorCode → String → Verdict

abbrev pub denied_names : List Text
denied_names =
    codes "localhost"
    ∷ codes "localhost.localdomain"
    ∷ codes "ip6-localhost"
    ∷ codes "ip6-loopback"
    ∷ codes "metadata"
    ∷ codes "metadata.google.internal"
    ∷ codes "metadata.goog"
    ∷ codes "instance-data"
    ∷ codes "instance-data.ec2.internal"
    ∷ codes "169.254.169.254.nip.io"
    ∷ []

unfoldable pub is_denied_name : Text → Bool
is_denied_name name = any (λ denied. text_eq name denied) denied_names

unfoldable pub ends_with : ℕ → Text → Bool
ends_with c [] = false
ends_with c (a ∷ []) = a == c
ends_with c (a ∷ b ∷ s) = ends_with c (b ∷ s)

abbrev pub is_bracketed : Text → Bool
is_bracketed s = starts_with (codes "[") s && ends_with b']' s

abbrev inner : Text → Text
inner [] = []
inner (c ∷ s) = drop_last s

unfoldable pub strip_brackets : Text → Text
strip_brackets hostname = if is_bracketed hostname then inner hostname else hostname

-- `replace(/\.$/, "")`.
unfoldable pub drop_dot : Text → Text
drop_dot s = if ends_with b'.' s then drop_last s else s

-- `[A-Za-z0-9](?:[A-Za-z0-9-]{0,61}[A-Za-z0-9])?`, past its first character.
unfoldable pub is_label_rest : Text → Bool
is_label_rest [] = true
is_label_rest (c ∷ []) = is_alnum c
is_label_rest (c ∷ d ∷ s) = (is_alnum c || c == b'-') && is_label_rest (d ∷ s)

unfoldable pub is_label : Text → Bool
is_label [] = false
is_label (c ∷ s) = is_alnum c && (leb (length s) 62 && is_label_rest s)

-- `HOSTNAME_RE`: labels between dots, and maybe a dot after them.
unfoldable pub is_hostname : Text → Bool
is_hostname s = ltb 0 (length s) && (leb (length s) 253 && all is_label (split b'.' (drop_dot s)))

unfoldable pub last_part : List Text → Text
last_part [] = []
last_part (part ∷ []) = part
last_part (part ∷ next ∷ parts) = last_part (next ∷ parts)

-- `/(^|\.)[0-9]+\.?$/`: the last label is digits.
unfoldable pub ends_in_number : Text → Bool
ends_in_number s =
    let label = last_part (split b'.' (drop_dot s)) in ltb 0 (length label) && all is_digit label

module _ (is_ip : Text → ℕ) where
  -- What is neither bracketed nor an IPv6 address.
  unfoldable pub classify_name : Text → Classification
  classify_name bare =
      if any (λ c. c == b':') bare then denied_address else elim (parse_loose_ipv4 bare) [
        | some address ↦ classify_ipv4 address
        | none ↦
            if not (is_hostname bare)
            then denied_address
            else (if ends_in_number bare then denied_address else public_address)
      ]

  unfoldable pub classify : Text → Classification
  classify hostname =
      let trimmed = trim hostname in
      let bare = strip_brackets trimmed in
      let lower = drop_dot (to_lower_case bare) in
      if is_denied_name lower
      then (if starts_with (codes "metadata") lower || starts_with (codes "instance-data") lower
          then denied_address
          else loopback_address)
      else (if is_bracketed trimmed
          then (if is_ip bare == 6 then classify_ipv6 bare else denied_address)
          else (if is_ip bare == 6 then classify_ipv6 bare else classify_name bare))

abbrev pub permitted : Classification → EgressPolicy → Bool
permitted public_address policy = true
permitted loopback_address policy = policy.allow_loopback
permitted private_address policy = policy.allow_private
permitted denied_address policy = false

module _ (is_ip : Text → ℕ) where
  unfoldable pub assert_egress_allowed : Text → EgressPolicy → Verdict
  assert_egress_allowed hostname policy =
      let trimmed = trim hostname in
      if length trimmed == 0 || ltb (253 + 2) (length trimmed)
      then denies invalid_provider_config "egress-hostname-length"
      else (if permitted (classify is_ip trimmed) policy
          then permits
          else denies invalid_provider_config "egress-denied")

  -- `isEgressAllowed`.
  unfoldable pub is_egress_allowed : Text → EgressPolicy → Bool
  is_egress_allowed hostname policy = elim (assert_egress_allowed hostname policy) [
    | permits ↦ true
    | denies code stage ↦ false
  ]

  unfoldable pub assert_resolved_address_allowed : Text → EgressPolicy → Verdict
  assert_resolved_address_allowed address policy =
      if is_ip (strip_brackets (trim address)) == 0
      then denies invalid_provider_config "egress-resolved-not-address"
      else (if permitted (classify is_ip address) policy
          then permits
          else denies invalid_provider_config "egress-resolved-denied")

  -- The loop over the addresses: the first that is denied ends it.
  unfoldable pub assert_each_allowed : List Text → EgressPolicy → Verdict
  assert_each_allowed [] policy = permits
  assert_each_allowed (address ∷ addresses) policy =
      elim (assert_resolved_address_allowed address policy) [
        | denies code stage ↦ denies code stage
        | permits ↦ assert_each_allowed addresses policy
      ]

  -- What the resolver gives, none where it throws.
  unfoldable pub check_resolved : Option (List Text) → EgressPolicy → Verdict
  check_resolved none policy = denies unreachable "egress-resolve"
  check_resolved (some []) policy = denies unreachable "egress-resolve-empty"
  check_resolved (some (address ∷ addresses)) policy =
      assert_each_allowed (address ∷ addresses) policy

  unfoldable pub assert_request_egress_allowed :
      (Text → Option (List Text)) → Text → EgressPolicy → Verdict
  assert_request_egress_allowed resolver hostname policy =
      let bare = strip_brackets (trim hostname) in
      elim (assert_egress_allowed hostname policy) [
        | denies code stage ↦ denies code stage
        | permits ↦ if is_ip bare == 0 then check_resolved (resolver bare) policy else permits
      ]
