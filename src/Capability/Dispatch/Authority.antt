-- ===== src/Capability/Dispatch/Authority.antt =====
-- packages/capability/src/dispatch.ts: what a dispatch runs and reports.
use Prim.Native.Nat.{ℕ}
use Prim.Native.String.{String}
use goatrouter.Common.{
  ◌≡◌, refl, sym, ◌∙◌, ap, subst, true, ◌||◌, Option, none, some, List, [], ◌∷◌, Text, codes,
  text_eq, text_eq_iff, All, inl, inr, ltb, Bool-cases, Option-cases,
}
use goatrouter.Scopes.{has, satisfies}
use goatrouter.Value.{Value, plain_fields, get, as_string, byte_length}
use goatrouter.Capability.{Handler, matches_name, is_name_char, lookup_capability}
use goatrouter.Capability.Registry.{Admissible, Inv}
use goatrouter.Capability.Dispatch.{
  DispatchRefusalCode, DispatchOutcome, returned, refused, Effect, parses, runs, reportable_name,
  max_bytes, in_depth, check_output, invoke, authorize,
}

abbrev pub outcome_id : {O : Type 0} → DispatchOutcome O → Text
outcome_id (returned id name output) = id
outcome_id (refused id name code stage) = id

abbrev pub outcome_name : {O : Type 0} → DispatchOutcome O → Text
outcome_name (returned id name output) = name
outcome_name (refused id name code stage) = name

abbrev pub handler_of : Effect → Text
handler_of (parses name) = name
handler_of (runs name) = name

none-some {ℓ} : {A : Type ℓ} {a : A} → none ≡ some a → ⊥
none-some h = cc

module _ {I O : Type 0} where
  -- The handler found under a name is admissible and bears it.
  lookup-Admissible :
      (registry : List (Handler I O)) (name : Text) (h : Handler I O)
      → All Admissible registry
      → lookup_capability registry name ≡ some h
      → Admissible h × (name ≡ h.name)
  unfolding lookup_capability
  lookup-Admissible [] name h v found = absurd (none-some found)
  lookup-Admissible (x ∷ registry) name h (ok, v) found = elim (Bool-cases (text_eq name x.name)) [
    | inl same ↦
        let e : x ≡ h = cc (rw same at found) in
        (subst Admissible e ok, (text_eq_iff name x.name).0 same ∙ ap (λ y. y.name) e)
    | inr other ↦ lookup-Admissible registry name h v (rw other at found)
  ]

pub reportable_name-matches : (entry : Value) → matches_name (reportable_name entry) ≡ true
unfolding reportable_name matches_name is_name_char
reportable_name-matches entry = elim (Option-cases (plain_fields entry)) [
  | inl odd ↦ rw (odd, reportable_name) refl
  | inr (fields, plain) ↦ elim (Option-cases (plain_fields (get (codes "function") fields))) [
    | inl odd ↦ rw (plain, reportable_name) (rw odd refl)
    | inr (fn, function) ↦ elim (Option-cases (as_string (get (codes "name") fn))) [
      | inl odd ↦ rw (plain, reportable_name) (rw function (rw odd refl))
      | inr (name, text) ↦ elim (Bool-cases (matches_name name)) [
        | inl fits ↦ rw (plain, reportable_name) (rw function (rw text (rw fits fits)))
        | inr wild ↦ rw (plain, reportable_name) (rw function (rw text (rw wild refl)))
      ]
    ]
  ]
]

module _ {I O : Type 0} (json_parse : Text → Option Value) (json_stringify : O → Option Text)
    (registry : List (Handler I O)) (granted : Option (List Text)) (depth : Option ℕ) where
  -- The handler that was called is registered, the scopes granted satisfy the one that it requires,
  -- and the depth is within its bound.
  pub record Authorized (e : Effect) : Type 0 where
    pub handler : Handler I O
    pub scopes : List Text
    pub registered : lookup_capability registry (handler_of e) ≡ some handler
    pub held : granted ≡ some scopes
    pub satisfied : satisfies scopes handler.required_scope ≡ some true
    pub within : in_depth depth ≡ true

  -- One call gave an outcome that bears its id and a name of the pattern, by authorized calls.
  pub record Sound (id : Text) (o : Option (DispatchOutcome O × List Effect)) : Type 0 where
    pub one : DispatchOutcome O × List Effect
    pub made : o ≡ some one
    pub addressed : outcome_id one.0 ≡ id
    pub named : matches_name (outcome_name one.0) ≡ true
    pub authorized : All Authorized one.1

  pub refusal-Sound :
      (id reported : Text) (code : DispatchRefusalCode) (stage : String)
      → matches_name reported ≡ true
      → Sound id (some (refused id reported code stage, []))
  refusal-Sound id reported code stage named = record {
    one = (refused id reported code stage, []);
    made = refl;
    addressed = refl;
    named = named;
    authorized = tt;
  }

  -- The outcome of a handler bears the id, and a name of the pattern.
  Reported : Text → DispatchOutcome O → Type 0
  Reported id out = (outcome_id out ≡ id) × (matches_name (outcome_name out) ≡ true)

  check_output-Reported :
      (h : Handler I O) (id reported : Text) (output : O)
      → matches_name reported ≡ true
      → matches_name h.name ≡ true
      → Reported id (check_output json_parse json_stringify h id reported output)
  unfolding Reported check_output
  check_output-Reported h id reported output n m = elim (Option-cases (json_stringify output)) [
    | inl fails ↦ rw (fails, check_output) (refl, n)
    | inr (text, ok) ↦ elim (Bool-cases (ltb max_bytes (byte_length text))) [
      | inl big ↦ rw (ok, check_output) (rw big (refl, n))
      | inr fits ↦ rw (ok, check_output) (rw fits (refl, m))
    ]
  ]

  invoke-Sound :
      (h : Handler I O) (id reported : Text) (raw : Value)
      → matches_name reported ≡ true
      → matches_name h.name ≡ true
      → Authorized (parses h.name)
      → Authorized (runs h.name)
      → Sound id (some (invoke json_parse json_stringify h id reported raw))
  unfolding invoke Reported
  invoke-Sound h id reported raw n m p r = elim (Option-cases (h.parse raw)) [
    | inl fails ↦
        rw (fails, invoke)
          (record { one = _; made = refl; addressed = refl; named = n; authorized = (p, tt) })
    | inr (input, parsed) ↦ elim (Option-cases (h.run input)) [
      | inl fails ↦
          rw (parsed, invoke)
            (rw fails (record {
              one = _;
              made = refl;
              addressed = refl;
              named = n;
              authorized = (p, (r, tt));
            }))
      | inr (output, ran) ↦
          let (addressed, named) = check_output-Reported h id reported output n m in
          rw (parsed, invoke)
            (rw ran (record {
              one = _;
              made = refl;
              addressed = addressed;
              named = named;
              authorized = (p, (r, tt));
            }))
    ]
  ]

  pub authorize-Sound :
      (g : Option (List Text)) (id reported name : Text) (raw : Value)
      → g ≡ granted
      → Inv registry
      → in_depth depth ≡ true
      → matches_name reported ≡ true
      → Sound id (authorize json_parse json_stringify registry g id reported name raw)
  unfolding authorize satisfies
  authorize-Sound g id reported name raw same_g v within n =
      elim (Option-cases (lookup_capability registry name)) [
        | inl unknown ↦ rw (unknown, authorize) (refusal-Sound id reported _ _ n)
        | inr (h, found) ↦ elim (Option-cases g) [
          | inl unusable ↦ rw (found, authorize) (rw unusable (refusal-Sound id reported _ _ n))
          | inr (scopes, held) ↦
              let (ok, same) = lookup-Admissible registry name h v.admissible found in
              elim (Bool-cases (has scopes h.required_scope || has scopes (codes "admin"))) [
                | inr denied ↦
                    rw (found, authorize)
                      (rw (held, ok.scoped, denied) (refusal-Sound id reported _ _ n))
                | inl allowed ↦
                    let can : (e : Effect) → handler_of e ≡ h.name → Authorized e = λ e of. record {
                      handler = h;
                      scopes = scopes;
                      registered =
                          subst (λ m. lookup_capability registry m ≡ some h) (same ∙ sym of) found;
                      held = sym same_g ∙ held;
                      satisfied = rw (ok.scoped, satisfies) (ap some allowed);
                      within = within;
                    } in
                    rw (found, authorize)
                      (rw (held, ok.scoped, allowed)
                        (invoke-Sound h id reported raw n ok.named (can _ refl) (can _ refl)))
              ]
        ]
      ]
