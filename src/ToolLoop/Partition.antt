-- ===== src/ToolLoop/Partition.antt =====
-- apps/server/src/tool-loop.ts: the calls of an answer that are registered, and their outcomes.
use goatrouter.Common.{
  ◌≤◌, ◌≡◌, ◌≢◌, refl, sym, subst, ◌∙◌, true, false, Option, some, List, [], ◌∷◌, Text, All, all,
  any, length, ltb, ◌==◌, arith, inl, inr, Bool-cases,
}
use goatrouter.Scopes.{count}
use goatrouter.Value.{Value, array, Items}
use goatrouter.Capability.{Handler}
use goatrouter.Capability.Registry.{Inv}
use goatrouter.Capability.Dispatch.{DispatchOutcome, Effect, outcomes, dispatch_tool_calls}
use goatrouter.Capability.Dispatch.Authority.{Authorized}
use goatrouter.Capability.Dispatch.Batches.{Answers, entries, dispatch_tool_calls_lem}
use goatrouter.ToolLoop.{WireToolCall, is_ours, dispatchable}

module _ {I O : Type 0} (registry : List (Handler I O)) where
  pub dispatchable-le :
      (calls : List WireToolCall) → length (dispatchable registry calls) ≤ length calls
  unfolding dispatchable
  dispatchable-le [] = omega arith
  dispatchable-le (call ∷ calls) = ground (arith, dispatchable-le calls)

  -- Every call is one of a registered capability.
  pub dispatchable-All :
      (calls : List WireToolCall)
      → length (dispatchable registry calls) ≡ length calls
      → All (λ call. is_ours registry call ≡ true) calls
  unfolding dispatchable
  dispatchable-All [] h = tt
  dispatchable-All (call ∷ calls) h = elim (Bool-cases (is_ours registry call)) [
    | inl ours ↦ (ours, dispatchable-All calls (omega (arith, rw (ours, dispatchable) at h)))
    | inr other ↦ absurd (omega (arith, rw (other, dispatchable) at h, dispatchable-le calls))
  ]

  pub dispatchable-none :
      (calls : List WireToolCall)
      → length (dispatchable registry calls) ≡ 0
      → All (λ call. is_ours registry call ≡ false) calls
  unfolding dispatchable
  dispatchable-none [] h = tt
  dispatchable-none (call ∷ calls) h = elim (Bool-cases (is_ours registry call)) [
    | inl ours ↦ absurd (omega (arith, rw (ours, dispatchable) at h))
    | inr other ↦ (other, dispatchable-none calls (rw (other, dispatchable) at h))
  ]

  -- A call that is registered, and one that is not.
  pub dispatchable_some :
      (calls : List WireToolCall)
      → length (dispatchable registry calls) ≢ 0
      → any (is_ours registry) calls ≡ true
  unfolding dispatchable
  dispatchable_some [] h = absurd (h refl)
  dispatchable_some (call ∷ calls) h = elim (Bool-cases (is_ours registry call)) [
    | inl ours ↦ rw ours refl
    | inr other ↦ rw other (dispatchable_some calls (rw (other, dispatchable) at h))
  ]

  pub dispatchable_part :
      (calls : List WireToolCall)
      → length (dispatchable registry calls) ≢ length calls
      → all (is_ours registry) calls ≡ false
  unfolding dispatchable
  dispatchable_part [] h = absurd (h refl)
  dispatchable_part (call ∷ calls) h = elim (Bool-cases (is_ours registry call)) [
    | inl ours ↦
        let k = rw (ours, dispatchable) at h in
        rw ours (dispatchable_part calls (λ e. k (omega (arith, e))))
    | inr other ↦ rw other refl
  ]

pub length_ne_nil : (calls : List WireToolCall) → (length calls == 0) ≡ false → calls ≢ []
length_ne_nil [] h e = cc h
length_ne_nil (call ∷ calls) h e = cc e

module _ {I O : Type 0} (json_parse : Text → Option Value) (json_stringify : O → Option Text)
    (registry : List (Handler I O)) (granted : Option (List Text)) where
  -- A batch that gives outcomes was of one to eight calls.
  pub outcomes-Answers :
      (calls : Items) (outs : List (DispatchOutcome O)) (effects : List Effect)
      → Inv registry
      → dispatch_tool_calls json_parse json_stringify registry granted (some (some 1)) (array calls)
        ≡ outcomes outs effects
      → Answers (entries calls) outs
        × All (Authorized json_parse json_stringify registry granted (some 1)) effects
  unfolding dispatch_tool_calls
  outcomes-Answers calls outs effects v h = elim (Bool-cases (count calls == 0)) [
    | inl empty ↦ cc (rw empty at h)
    | inr full ↦ elim (Bool-cases (ltb 8 (count calls))) [
      | inl many ↦ cc (rw (full, many) at h)
      | inr few ↦
          let (outs', effects', made, answers, authorized) =
            dispatch_tool_calls_lem json_parse json_stringify registry granted (some (some 1)) calls
              v (ground arith) (ground arith) in
          let same = sym made ∙ h in
          let same_outs : outs' ≡ outs = cc same in
          let same_effects : effects' ≡ effects = cc same in
          (
            subst (Answers (entries calls)) same_outs answers,
            subst (All (Authorized json_parse json_stringify registry granted (some 1)))
                same_effects authorized,
          )
    ]
  ]
