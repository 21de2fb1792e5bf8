-- ===== src/Capability/Dispatch/Batches.antt =====
-- packages/capability/src/dispatch.ts: what a batch of tool calls gives.
use Prim.Native.Nat.{ℕ}
use goatrouter.Common.{
  ◌≤◌, ◌≡◌, refl, true, false, Option, some, List, [], ◌∷◌, ◌++◌, Text, All, All-append, inl, inr,
  arith, ltb, ◌==◌, Bool-cases, Option-cases,
}
use goatrouter.Scopes.{count}
use goatrouter.Value.{Value, array, Items, no_items, item, plain_fields, byte_length}
use goatrouter.Capability.{Handler, matches_name}
use goatrouter.Capability.Registry.{Inv}
use goatrouter.Capability.Dispatch.{
  invalid_tool_call, DispatchOutcome, refused, Effect, reportable_id, reportable_name, Envelope,
  envelope, malformed, read_envelope, max_bytes, in_depth, depth_of, outcomes, read_arguments,
  dispatch_one, dispatch_each, dispatch_tool_calls,
}
use goatrouter.Capability.Dispatch.Authority.{
  outcome_id, outcome_name, Authorized, Sound, refusal-Sound, authorize-Sound,
  reportable_name-matches,
}

-- The entries of an array, in order.
abbrev pub entries : Items → List Value
entries no_items = []
entries (item entry rest) = entry ∷ entries rest

-- Outcomes that answer the entries in order, each with the id and a name of the pattern.
abbrev pub Answers : {O : Type 0} → List Value → List (DispatchOutcome O) → Type 0
Answers [] [] = Unit
Answers [] (out ∷ outs) = ⊥
Answers (entry ∷ rest) [] = ⊥
Answers (entry ∷ rest) (out ∷ outs) =
    (outcome_id out ≡ reportable_id entry)
    × (matches_name (outcome_name out) ≡ true)
    × Answers rest outs

module _ {I O : Type 0} (json_parse : Text → Option Value) (json_stringify : O → Option Text)
    (registry : List (Handler I O)) (granted : Option (List Text)) (depth : Option ℕ) where
  read_arguments-Sound :
      (id reported name args : Text)
      → Inv registry
      → in_depth depth ≡ true
      → matches_name reported ≡ true
      → Sound json_parse json_stringify registry granted depth id
          (read_arguments json_parse json_stringify registry granted id reported name args)
  unfolding read_arguments
  read_arguments-Sound id reported name args v within n =
      elim (Bool-cases (ltb max_bytes (byte_length args))) [
        | inl big ↦
            rw (big, read_arguments)
              (refusal-Sound json_parse json_stringify registry granted depth id reported _ _ n)
        | inr fits ↦ elim (Option-cases (json_parse args)) [
          | inl fails ↦
              rw (fits, fails)
                (refusal-Sound json_parse json_stringify registry granted depth id reported _ _ n)
          | inr (raw, parsed) ↦ elim (Option-cases (plain_fields raw)) [
            | inl odd ↦
                rw (fits, parsed, odd)
                  (refusal-Sound json_parse json_stringify registry granted depth id reported _ _ n)
            | inr (fields', plain) ↦
                rw (fits, parsed, plain)
                  (authorize-Sound json_parse json_stringify registry granted depth granted id
                    reported name raw refl v within n)
          ]
        ]
      ]

  envelope-Sound :
      (id reported : Text) (e : Envelope)
      → Inv registry
      → in_depth depth ≡ true
      → matches_name reported ≡ true
      → Sound json_parse json_stringify registry granted depth id (elim e [
        | malformed stage ↦ some (refused id reported invalid_tool_call stage, [])
        | envelope name args ↦
            read_arguments json_parse json_stringify registry granted id reported name args
      ])
  envelope-Sound id reported (malformed stage) v within n =
      refusal-Sound json_parse json_stringify registry granted depth id reported _ _ n
  envelope-Sound id reported (envelope name args) v within n =
      read_arguments-Sound id reported name args v within n

  dispatch_one-Sound :
      (entry : Value)
      → Inv registry
      → Sound json_parse json_stringify registry granted depth
          (reportable_id entry)
          (dispatch_one json_parse json_stringify registry granted depth entry)
  unfolding dispatch_one
  dispatch_one-Sound entry v =
      let id = reportable_id entry in
      let reported = reportable_name entry in
      let n = reportable_name-matches entry in
      elim (Bool-cases (in_depth depth)) [
        | inr outside ↦
            rw outside
              (refusal-Sound json_parse json_stringify registry granted depth id reported _ _ n)
        | inl within ↦ rw within (envelope-Sound id reported (read_envelope entry) v within n)
      ]

  record AllSound (calls : Items) : Type 0 where
    all_of : List (DispatchOutcome O) × List Effect
    made : dispatch_each json_parse json_stringify registry granted depth calls ≡ some all_of
    answers : Answers (entries calls) all_of.0
    authorized : All (Authorized json_parse json_stringify registry granted depth) all_of.1

  dispatch_each-AllSound : (calls : Items) → Inv registry → AllSound calls
  unfolding dispatch_each
  dispatch_each-AllSound no_items v = record {
    all_of = ([], []);
    made = refl;
    answers = tt;
    authorized = tt;
  }
  dispatch_each-AllSound (item entry rest) v =
      let one = dispatch_one-Sound entry v in
      let more = dispatch_each-AllSound rest v in
      record {
        all_of = (one.one.0 ∷ more.all_of.0, one.one.1 ++ more.all_of.1);
        made = rw (one.made, dispatch_each) (rw more.made refl);
        answers = (one.addressed, one.named, more.answers);
        authorized =
            All-append (Authorized json_parse json_stringify registry granted depth) one.one.1
              more.all_of.1 one.authorized more.authorized;
      }

-- With a registry that meets the invariant of registrations, and a batch of one to eight calls, a
-- dispatch does not throw. It gives one outcome for each call, in order, which bears the id of the
-- call where that fits its pattern and a fixed id where not, and a name of the pattern of names.
-- Every `parse` or `run` of a handler that it calls is of one registered under its name, whose scope
-- the scopes of the principal satisfy, at a depth from one to four, where no depth given means one.
pub dispatch_tool_calls_lem :
    {I O : Type 0} (json_parse : Text → Option Value) (json_stringify : O → Option Text)
    (registry : List (Handler I O)) (granted : Option (List Text)) (depth : Option (Option ℕ))
    (calls : Items)
    → Inv registry
    → 1 ≤ count calls
    → count calls ≤ 8
    → (outs : List (DispatchOutcome O)) × (effects : List Effect) × (dispatch_tool_calls json_parse
          json_stringify registry granted depth
          (array calls)
        ≡ outcomes outs effects)
      × Answers (entries calls) outs
      × All (Authorized json_parse json_stringify registry granted (depth_of depth)) effects
unfolding dispatch_tool_calls
dispatch_tool_calls_lem json_parse json_stringify registry granted depth calls v some_call few =
    let each =
      dispatch_each-AllSound json_parse json_stringify registry granted (depth_of depth) calls v in
    let nonempty : (count calls == 0) ≡ false = ground arith in
    let bounded : ltb 8 (count calls) ≡ false = ground arith in
    (
      each.all_of.0,
      each.all_of.1,
      rw (nonempty, bounded, each.made) refl,
      each.answers,
      each.authorized,
    )
