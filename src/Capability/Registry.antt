-- ===== src/Capability/Registry.antt =====
-- packages/capability/src/registry.ts: what every registry keeps, and what a registration changes.
use goatrouter.Common.{
  ◌≤◌, ◌≡◌, ◌≢◌, refl, true, false, not, ◌||◌, none, some, List, [], ◌∷◌, ◌++◌, Text, text_eq,
  text_eq_iff, text_eq_sym, text_eq_refl, length, length-append, All, All-append, inl, inr, arith,
  leb, Bool-cases,
}
use goatrouter.Scopes.{is_client_scope, has}
use goatrouter.Capability.{
  Handler, matches_name, reserved_names, lookup_capability, is_registered, register_capability,
  reset_capabilities,
}

text_ne : (s t : Text) → s ≢ t → text_eq s t ≡ false
text_ne s t other = elim (Bool-cases (text_eq s t)) [
  | inl same ↦ absurd (other ((text_eq_iff s t).0 same))
  | inr apart ↦ apart
]

-- A change of the registry.
pub data Change (I O : Type 0) : Type 0 where
  registers : Handler I O → Change I O
  resets : Change I O

module _ {I O : Type 0} where
  -- A handler whose name fits the pattern and is not reserved, and whose scope is known.
  pub record Admissible (h : Handler I O) : Type 0 where
    pub named : matches_name h.name ≡ true
    pub unreserved : has reserved_names h.name ≡ false
    pub scoped : is_client_scope h.required_scope ≡ true

  -- No two handlers have one name.
  abbrev pub Distinct : List (Handler I O) → Type 0
  Distinct [] = Unit
  Distinct (h ∷ rest) = (is_registered rest h.name ≡ false) × Distinct rest

  pub record Inv (registry : List (Handler I O)) : Type 0 where
    pub admissible : All Admissible registry
    pub distinct : Distinct registry
    pub bounded : length registry ≤ 128

  -- The registry after changes, newest first.
  unfoldable pub registry_after : List (Change I O) → List (Handler I O)
  registry_after [] = []
  registry_after (registers h ∷ past) = (register_capability (registry_after past) h).0
  registry_after (resets ∷ past) = reset_capabilities (registry_after past)

  is_registered-append :
      (registry : List (Handler I O)) (h : Handler I O) (name : Text)
      → is_registered registry name ≡ false
      → text_eq name h.name ≡ false
      → is_registered (registry ++ h ∷ []) name ≡ false
  unfolding is_registered
  is_registered-append [] h name absent other = ground arith
  is_registered-append (x ∷ registry) h name absent other =
      ground (arith, is_registered-append registry h name)

  append-Distinct :
      (registry : List (Handler I O)) (h : Handler I O)
      → Distinct registry
      → is_registered registry h.name ≡ false
      → Distinct (registry ++ h ∷ [])
  unfolding is_registered
  append-Distinct [] h d absent = (refl, tt)
  append-Distinct (x ∷ registry) h (fresh, d) absent = (
    is_registered-append registry h x.name fresh (text_eq_sym h.name x.name (ground arith)),
    append-Distinct registry h d (ground arith),
  )

  register-Inv :
      (registry : List (Handler I O)) (h : Handler I O)
      → Inv registry
      → Inv (register_capability registry h).0
  unfolding register_capability
  register-Inv registry h v =
      elim (Bool-cases (not (matches_name h.name) || has reserved_names h.name)) [
        | inl bad ↦ rw (bad, register_capability) v
        | inr named ↦ elim (Bool-cases (not (is_client_scope h.required_scope))) [
          | inl unknown ↦ rw (named, unknown) v
          | inr scoped ↦ elim (Bool-cases (is_registered registry h.name)) [
            | inl taken ↦ rw (named, scoped, taken) v
            | inr fresh ↦ elim (Bool-cases (leb 128 (length registry))) [
              | inl full ↦ rw (named, scoped, fresh, full) v
              | inr room ↦
                  rw (named, scoped, fresh, room)
                    (record {
                      admissible = All-append Admissible registry (h ∷ []) v.admissible (
                        record {
                          named = ground arith;
                          unreserved = ground arith;
                          scoped = ground arith;
                        },
                        tt,
                      );
                      distinct = append-Distinct registry h v.distinct fresh;
                      bounded = ground (arith, length-append registry (h ∷ []));
                    })
            ]
          ]
        ]
      ]

  -- Whatever registrations and resets were made, every handler of the registry has a name of the
  -- pattern that is not reserved and a scope of the vocabulary, no two have one name, and there are
  -- at most 128.
  pub registry_after-Inv : (changes : List (Change I O)) → Inv (registry_after changes)
  unfolding registry_after reset_capabilities
  registry_after-Inv [] = record { admissible = tt; distinct = tt; bounded = omega arith }
  registry_after-Inv (registers h ∷ past) =
      register-Inv (registry_after past) h (registry_after-Inv past)
  registry_after-Inv (resets ∷ past) = record {
    admissible = tt;
    distinct = tt;
    bounded = omega arith;
  }

  lookup_capability-append :
      (registry : List (Handler I O)) (h : Handler I O) (name : Text)
      → is_registered registry h.name ≡ false
      → (lookup_capability (registry ++ h ∷ []) h.name ≡ some h)
        × (text_eq name h.name ≡ false
            → lookup_capability (registry ++ h ∷ []) name ≡ lookup_capability registry name)
  unfolding lookup_capability is_registered
  lookup_capability-append [] h name fresh =
      (ground (arith, text_eq_refl h.name), λ other. ground arith)
  lookup_capability-append (x ∷ registry) h name fresh =
      let later = lookup_capability-append registry h name (ground arith) in
      (ground (arith, later.0), λ other. ground (arith, later.1 other))

  appended_found :
      (registry : List (Handler I O)) (h : Handler I O)
      → is_registered registry h.name ≡ false
      → lookup_capability (registry ++ h ∷ []) h.name ≡ some h
  unfolding lookup_capability is_registered
  appended_found [] h fresh = ground (arith, text_eq_refl h.name)
  appended_found (x ∷ registry) h fresh = ground (arith, appended_found registry h)

  appended_apart :
      (registry : List (Handler I O)) (h : Handler I O) (name : Text)
      → text_eq name h.name ≡ false
      → lookup_capability (registry ++ h ∷ []) name ≡ lookup_capability registry name
  unfolding lookup_capability
  appended_apart [] h name other = ground arith
  appended_apart (x ∷ registry) h name other = ground (arith, appended_apart registry h name other)

  registered_parts :
      (registry t : List (Handler I O)) (h : Handler I O)
      → register_capability registry h ≡ (t, none)
      → (is_registered registry h.name ≡ false) × (t ≡ registry ++ h ∷ [])
  unfolding register_capability
  registered_parts registry t h made = ground arith

  -- A registration that does not throw found no handler under its name; from then on its own is the
  -- one found there, and every other name is looked up as before.
  pub register_capability-lookup :
      (registry t : List (Handler I O)) (h : Handler I O) (name : Text)
      → register_capability registry h ≡ (t, none)
      → name ≢ h.name
      → (is_registered registry h.name ≡ false)
        × (lookup_capability t h.name ≡ some h)
        × (lookup_capability t name ≡ lookup_capability registry name)
  register_capability-lookup registry t h name made other =
      let (fresh, grown) = registered_parts registry t h made in
      (
        fresh,
        rw grown (appended_found registry h fresh),
        rw grown (appended_apart registry h name (text_ne name h.name other)),
      )
