-- ===== src/Egress/Requests.antt =====
-- packages/providers/src/egress.ts: what the check before a request lets through.
use Prim.Native.Nat.{ℕ}
use Prim.Native.String.{String}
use goatrouter.Common.{
  ◌+◌, ◌≤◌, ◌↔◌, ◌⊎◌, ◌≡◌, refl, subst, true, false, ◌&&◌, ◌||◌, Option, none, some, List, [], ◌∷◌,
  Text, All, any, length, ltb, ◌==◌, trim, arith, inl, inr, Bool-cases,
}
use goatrouter.Address.{Ipv4, parse_loose_ipv4}
use goatrouter.Address.Octets.{reserved_bytes, private_bytes, by_bytes, classify_ipv4-bytes}
use goatrouter.Address.Forms.{parse_loose_ipv4-IsForm}
use goatrouter.Ipv6.{to_lower_case}
use goatrouter.Egress.{
  EgressPolicy, Verdict, permits, denies, is_denied_name, is_bracketed, strip_brackets, drop_dot,
  classify_name, classify, permitted, assert_egress_allowed, assert_resolved_address_allowed,
  assert_each_allowed, check_resolved, assert_request_egress_allowed,
}

Verdict-cases :
    (v : Verdict) → (v ≡ permits) ⊎ ((code : _) × (stage : String) × (v ≡ denies code stage))
Verdict-cases permits = inl refl
Verdict-cases (denies code stage) = inr (code, stage, refl)

-- An address that a policy lets be reached.
pub record IsReachable (policy : EgressPolicy) (a : Ipv4) : Type 0 where
  pub loopback : (a.first == 127 || a.first == 0) ≡ true → policy.allow_loopback ≡ true
  pub link_local : (a.first == 169 && a.second == 254) ≡ false
  pub reserved : reserved_bytes a ≡ false
  pub private : private_bytes a ≡ true → policy.allow_private ≡ true

permitted-IsReachable :
    (policy : EgressPolicy) (a : Ipv4) → permitted (by_bytes a) policy ≡ true → IsReachable policy a
permitted-IsReachable policy a h = elim (Bool-cases (a.first == 127 || a.first == 0)) [
  | inl local ↦ record {
    loopback = λ _. ground (arith, h);
    link_local = ground arith;
    reserved = ground arith;
    private = λ e. absurd (ground arith);
  }
  | inr remote ↦ elim (Bool-cases (a.first == 169 && a.second == 254)) [
    | inl link ↦ absurd (ground (arith, h))
    | inr routed ↦ elim (Bool-cases (reserved_bytes a)) [
      | inl taken ↦ absurd (ground (arith, h))
      | inr open' ↦ record {
        loopback = λ e. cc (e, remote);
        link_local = routed;
        reserved = open';
        private = λ e. ground (arith, h);
      }
    ]
  ]
]

module _ (is_ip : Text → ℕ) where
  -- A text that is classified as the IPv4 address that its numeric form stands for.
  pub record IsNumeric (host : Text) (a : Ipv4) : Type 0 where
    pub unbracketed : is_bracketed (trim host) ≡ false
    pub unnamed : is_denied_name (drop_dot (to_lower_case (strip_brackets (trim host)))) ≡ false
    pub not_v6 : (is_ip (strip_brackets (trim host)) == 6) ≡ false
    pub form : parse_loose_ipv4 (strip_brackets (trim host)) ≡ some a

module _ (is_ip : Text → ℕ) (policy : EgressPolicy) where
  classify-IsReachable :
      (host : Text) (a : Ipv4)
      → permitted (classify is_ip host) policy ≡ true
      → IsNumeric is_ip host a
      → IsReachable policy a
  unfolding classify classify_name
  classify-IsReachable host a h n =
      let bare = strip_brackets (trim host) in
      elim (Bool-cases (any (λ c. c == b':') bare)) [
        | inl colon ↦
            cc (rw (classify, n.unnamed, n.unbracketed, n.not_v6, classify_name, colon) at h)
        | inr no_colon ↦ permitted-IsReachable policy a (
            rw
              (
                classify,
                n.unnamed,
                n.unbracketed,
                n.not_v6,
                classify_name,
                no_colon,
                n.form,
                classify_ipv4-bytes a (parse_loose_ipv4-IsForm bare a n.form).is_ipv4,
              )
              at h)
      ]

  -- A resolved address that is let through.
  pub record IsAddressAllowed (address : Text) : Type 0 where
    pub literal : (is_ip (strip_brackets (trim address)) == 0) ≡ false
    pub allowed : permitted (classify is_ip address) policy ≡ true

  assert_resolved_address_allowed_iff :
      (address : Text)
      → (assert_resolved_address_allowed is_ip address policy ≡ permits) ↔ IsAddressAllowed address
  unfolding assert_resolved_address_allowed
  assert_resolved_address_allowed_iff address =
      elim (Bool-cases (is_ip (strip_brackets (trim address)) == 0)) [
        | inl name ↦ (λ h. cc (rw name at h), λ v. cc (name, v.literal))
        | inr literal ↦ elim (Bool-cases (permitted (classify is_ip address) policy)) [
          | inl allowed ↦ (
            λ _. record { literal = literal; allowed = allowed },
            λ _. rw (literal, allowed) refl,
          )
          | inr denied ↦ (λ h. cc (rw (literal, denied) at h), λ v. cc (denied, v.allowed))
        ]
      ]

  assert_each_allowed_iff :
      (addresses : List Text)
      → (assert_each_allowed is_ip addresses policy ≡ permits) ↔ All IsAddressAllowed addresses
  unfolding assert_each_allowed
  assert_each_allowed_iff [] = (λ _. tt, λ _. refl)
  assert_each_allowed_iff (address ∷ addresses) =
      elim (Verdict-cases (assert_resolved_address_allowed is_ip address policy)) [
        | inl passes ↦ (
          λ h. (
            (assert_resolved_address_allowed_iff address).0 passes,
            (assert_each_allowed_iff addresses).0 (rw (assert_each_allowed, passes) at h),
          ),
          λ v. rw (assert_each_allowed, passes) ((assert_each_allowed_iff addresses).1 v.1),
        )
        | inr (code, stage, denied) ↦ (
          λ h. cc (rw (assert_each_allowed, denied) at h),
          λ v. cc ((assert_resolved_address_allowed_iff address).1 v.0, denied),
        )
      ]

  -- A host name that is let through.
  pub record IsNameAllowed (host : Text) : Type 0 where
    pub nonempty : (length (trim host) == 0) ≡ false
    pub short : length (trim host) ≤ 255
    pub allowed : permitted (classify is_ip (trim host)) policy ≡ true

  assert_egress_allowed_iff :
      (host : Text) → (assert_egress_allowed is_ip host policy ≡ permits) ↔ IsNameAllowed host
  unfolding assert_egress_allowed
  assert_egress_allowed_iff host =
      let trimmed = trim host in
      elim (Bool-cases (length trimmed == 0 || ltb (253 + 2) (length trimmed))) [
        | inl outside ↦
            (λ h. cc (rw outside at h), λ v. absurd (ground (arith, v.nonempty, v.short)))
        | inr within ↦ elim (Bool-cases (permitted (classify is_ip trimmed) policy)) [
          | inl allowed ↦ (
            λ _. record { nonempty = ground arith; short = ground arith; allowed = allowed },
            λ _. rw (within, allowed) refl,
          )
          | inr denied ↦ (λ h. cc (rw (within, denied) at h), λ v. cc (denied, v.allowed))
        ]
      ]

module _ (is_ip : Text → ℕ) (policy : EgressPolicy) (resolver : Text → Option (List Text)) where
  -- The resolver gives at least one address, and each of them is let through.
  pub record IsResolved (bare : Text) : Type 0 where
    pub address : Text
    pub addresses : List Text
    pub answers : resolver bare ≡ some (address ∷ addresses)
    pub each : All (IsAddressAllowed is_ip policy) (address ∷ addresses)

  check_resolved_iff :
      (bare : Text) (o : Option (List Text))
      → resolver bare ≡ o
      → (check_resolved is_ip o policy ≡ permits) ↔ IsResolved bare
  unfolding check_resolved
  check_resolved_iff bare none e = (λ h. cc h, λ v. cc (e, v.answers))
  check_resolved_iff bare (some []) e = (λ h. cc h, λ v. cc (e, v.answers))
  check_resolved_iff bare (some (x ∷ xs)) e = (
    λ h. record {
      address = x;
      addresses = xs;
      answers = e;
      each = (assert_each_allowed_iff is_ip policy (x ∷ xs)).0 h;
    },
    λ v.
        let same : (v.address ∷ v.addresses) ≡ (x ∷ xs) = cc (e, v.answers) in
        subst (λ l. assert_each_allowed is_ip l policy ≡ permits) same
          ((assert_each_allowed_iff is_ip policy (v.address ∷ v.addresses)).1 v.each),
  )

  -- A request is let through exactly when its host name is of one to 255 characters and of a class
  -- that the policy permits, and is an address itself or resolves to at least one address, all of
  -- which are addresses of a class that the policy permits.
  pub assert_request_egress_allowed_iff :
      (host : Text)
      → (assert_request_egress_allowed is_ip resolver host policy ≡ permits) ↔ (
          IsNameAllowed is_ip policy host
          × (((is_ip (strip_brackets (trim host)) == 0) ≡ false)
              ⊎ IsResolved (strip_brackets (trim host))))
  unfolding assert_request_egress_allowed
  assert_request_egress_allowed_iff host =
      let bare = strip_brackets (trim host) in
      elim (Verdict-cases (assert_egress_allowed is_ip host policy)) [
        | inr (code, stage, denied) ↦ (
          λ h. cc (rw (assert_request_egress_allowed, denied) at h),
          λ v. cc ((assert_egress_allowed_iff is_ip policy host).1 v.0, denied),
        )
        | inl named ↦
            let name = (assert_egress_allowed_iff is_ip policy host).0 named in
            let resolved = check_resolved_iff bare (resolver bare) refl in
            elim (Bool-cases (is_ip bare == 0)) [
              | inr literal ↦ (
                λ _. (name, inl literal),
                λ _. rw (assert_request_egress_allowed, named, literal) refl,
              )
              | inl unresolved ↦ (
                λ h. (
                  name,
                  inr (resolved.0 (rw (assert_request_egress_allowed, named, unresolved) at h)),
                ),
                λ v.
                    rw (assert_request_egress_allowed, named, unresolved)
                      (elim v.1 [ inl literal ↦ cc (literal, unresolved) | inr r ↦ resolved.1 r ]),
              )
            ]
      ]

  -- When a request for a name that is no address is let through, the resolver gave at least one
  -- address, and each of them that is the numeric form of an IPv4 address is reachable under the
  -- policy: not link-local and not reserved whatever the policy says, and loopback or private only
  -- where the policy says so.
  pub assert_request_egress_allowed-IsReachable :
      (host : Text)
      → assert_request_egress_allowed is_ip resolver host policy ≡ permits
      → (is_ip (strip_brackets (trim host)) == 0) ≡ true
      → (address : Text) × (addresses : List Text) × (resolver (strip_brackets (trim host))
          ≡ some (address ∷ addresses))
        × All (λ x. (a : Ipv4) → IsNumeric is_ip x a → IsReachable policy a) (address ∷ addresses)
  assert_request_egress_allowed-IsReachable host h name =
      elim ((assert_request_egress_allowed_iff host).0 h).1 [
        | inl literal ↦ cc (literal, name)
        | inr r ↦ (r.address, r.addresses, r.answers, reach (r.address ∷ r.addresses) r.each)
      ]
    where
      reach :
          (l : List Text)
          → All (IsAddressAllowed is_ip policy) l
          → All (λ x. (a : Ipv4) → IsNumeric is_ip x a → IsReachable policy a) l
      reach [] v = tt
      reach (x ∷ l) (v, vs) = (λ a n. classify-IsReachable is_ip policy x a v.allowed n, reach l vs)
