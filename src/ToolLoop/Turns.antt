-- ===== src/ToolLoop/Turns.antt =====
-- apps/server/src/tool-loop.ts: what one turn of the loop does.
use Prim.Native.Nat.{ℕ}
use Prim.Native.String.{String}
use goatrouter.Common.{
  ◌≢◌, ◌≡◌, refl, true, false, Option, none, some, List, [], Text, All, all, any, length, ◌==◌,
  arith, inl, inr, Bool-cases, Option-cases,
}
use goatrouter.Value.{Value, array, Items, item}
use goatrouter.Capability.{Handler}
use goatrouter.Capability.Registry.{Inv}
use goatrouter.Capability.Dispatch.{
  DispatchRefusalCode, DispatchOutcome, Effect, Batch, calls_shape, calls_bound, scope_error,
  outcomes, dispatch_tool_calls,
}
use goatrouter.Capability.Dispatch.Authority.{Authorized}
use goatrouter.Capability.Dispatch.Batches.{Answers, entries}
use goatrouter.ToolLoop.{
  max_dispatch_turns, WireToolCall, wire_items, append_items, Answer, Request, LoopEnding, answered,
  tool_loop_error, tool_dispatch_exhausted, tool_dispatch_split, capability_refused, dispatch_threw,
  spread_threw, Turn, stops, goes_on, calls_of, first_refused, is_ours, dispatchable,
  assistant_message, tool_answers, carry_forward, after_dispatch, dispatch_turn, take_turn,
}
use goatrouter.ToolLoop.Partition.{
  dispatchable-le, dispatchable-All, dispatchable-none, dispatchable_some, dispatchable_part,
  length_ne_nil, outcomes-Answers,
}

module _ {I O : Type 0} (json_parse : Text → Option Value) (json_stringify : O → Option Text)
    (registry : List (Handler I O)) (granted : Option (List Text)) where
  abbrev pub AllAuthorized : List Effect → Type 0
  AllAuthorized effects =
      All (Authorized json_parse json_stringify registry granted (some 1)) effects

  -- A dispatch of all the calls, before the last turn, each of which is registered.
  pub record Dispatches (turn : ℕ) (calls : List WireToolCall) (batch : Batch O) : Type 0 where
    pub early : turn ≢ max_dispatch_turns
    pub nonempty : calls ≢ []
    pub ours : All (λ call. is_ours registry call ≡ true) calls
    pub dispatched :
        dispatch_tool_calls json_parse json_stringify registry granted
          (some (some 1))
          (array (wire_items calls))
        ≡ batch

module _ {I O Q : Type 0} (json_parse : Text → Option Value) (json_stringify : O → Option Text)
    (registry : List (Handler I O)) (granted : Option (List Text)) where
  -- A turn on which the loop goes on: every call is registered, what ran is the dispatch of them all,
  -- none was refused, and the next request is the one before with the calls and, in order, a result
  -- for each of them.
  pub record GoesOn (turn : ℕ) (pending : Request Q) (calls : List WireToolCall)
      (effects : List Effect) (next : Request Q) : Type 0 where
    pub outs : List (DispatchOutcome O)
    pub messages : Items
    pub early : turn ≢ max_dispatch_turns
    pub ours : All (λ call. is_ours registry call ≡ true) calls
    pub dispatched :
        dispatch_tool_calls json_parse json_stringify registry granted
          (some (some 1))
          (array (wire_items calls))
        ≡ outcomes outs effects
    pub accepted : first_refused outs ≡ none
    pub answers : Answers (entries (wire_items calls)) outs
    pub authorized : AllAuthorized json_parse json_stringify registry granted effects
    pub before : pending.messages ≡ some messages
    pub after :
        next.messages
        ≡ some (
            append_items messages
              (item (assistant_message calls) (tool_answers json_stringify outs)))
    pub rest : next.rest ≡ pending.rest

module _ {I O Q R E : Type 0} (json_parse : Text → Option Value) (json_stringify : O → Option Text)
    (registry : List (Handler I O)) (granted : Option (List Text)) where
  -- The ways in which a turn stops, each with the calls of handlers that it made.
  pub data Stops (turn : ℕ) (pending : Request Q) (answer : Answer R)
      : LoopEnding O R E → List Effect → Type 0 where
    returned :
        All (λ call. is_ours registry call ≡ false) (calls_of answer)
        → Stops turn pending answer (answered answer) []
    mixed :
        any (is_ours registry) (calls_of answer) ≡ true
        → all (is_ours registry) (calls_of answer) ≡ false
        → Stops turn pending answer (tool_loop_error tool_dispatch_split "tool-loop-partition") []
    exhausted :
        turn ≡ max_dispatch_turns
        → calls_of answer ≢ []
        → All (λ call. is_ours registry call ≡ true) (calls_of answer)
        → Stops turn pending answer (tool_loop_error tool_dispatch_exhausted "tool-loop-turns") []
    threw :
        (thrown : Batch O)
        → ((outs : List (DispatchOutcome O)) (effects : List Effect)
            → thrown ≢ outcomes outs effects)
        → Dispatches json_parse json_stringify registry granted turn (calls_of answer) thrown
        → Stops turn pending answer (dispatch_threw thrown) []
    refuses :
        (outs : List (DispatchOutcome O)) (effects : List Effect)
        (found : DispatchRefusalCode × String)
        → Dispatches json_parse json_stringify registry granted turn
            (calls_of answer)
            (outcomes outs effects)
        → Answers (entries (wire_items (calls_of answer))) outs
        → AllAuthorized json_parse json_stringify registry granted effects
        → first_refused outs ≡ some found
        → Stops turn pending answer (capability_refused found.0 found.1) effects
    spreads :
        (outs : List (DispatchOutcome O)) (effects : List Effect)
        → Dispatches json_parse json_stringify registry granted turn
            (calls_of answer)
            (outcomes outs effects)
        → AllAuthorized json_parse json_stringify registry granted effects
        → first_refused outs ≡ none
        → pending.messages ≡ none
        → Stops turn pending answer spread_threw effects

module _ {I O Q R : Type 0} (E : Type 0) (json_parse : Text → Option Value)
    (json_stringify : O → Option Text) (registry : List (Handler I O))
    (granted : Option (List Text)) where
  abbrev pub Takes : ℕ → Request Q → Answer R → Turn O Q R E → Type 0
  Takes turn pending answer (stops ending effects) =
      Stops json_parse json_stringify registry granted turn pending answer ending effects
  Takes turn pending answer (goes_on effects next) =
      GoesOn json_parse json_stringify registry granted turn pending (calls_of answer) effects next

  carry_forward-Takes :
      (turn : ℕ) (pending : Request Q) (answer : Answer R) (outs : List (DispatchOutcome O))
      (effects : List Effect)
      → Dispatches json_parse json_stringify registry granted turn
          (calls_of answer)
          (outcomes outs effects)
      → first_refused outs ≡ none
      → Answers (entries (wire_items (calls_of answer))) outs
      → AllAuthorized json_parse json_stringify registry granted effects
      → Takes turn pending answer (
          carry_forward {E = E} json_parse json_stringify registry granted pending
            (calls_of answer)
            outs
            effects)
  unfolding carry_forward
  carry_forward-Takes turn pending answer outs effects d accepted answers authorized =
      elim (Option-cases pending.messages) [
        | inl odd ↦ simp (carry_forward, odd) (spreads outs effects d authorized accepted odd)
        | inr (messages, listed) ↦
            rw (carry_forward, listed)
              (record {
                outs = outs;
                messages = messages;
                early = d.early;
                ours = d.ours;
                dispatched = d.dispatched;
                accepted = accepted;
                answers = answers;
                authorized = authorized;
                before = refl;
                after = refl;
                rest = refl;
              })
      ]

  after_dispatch-Takes :
      (turn : ℕ) (pending : Request Q) (answer : Answer R) (b : Batch O)
      → Inv registry
      → Dispatches json_parse json_stringify registry granted turn (calls_of answer) b
      → Takes turn pending answer (
          after_dispatch {E = E} json_parse json_stringify registry granted pending
            (calls_of answer)
            b)
  unfolding after_dispatch
  after_dispatch-Takes turn pending answer calls_shape v d = threw calls_shape (λ o e h. cc h) d
  after_dispatch-Takes turn pending answer calls_bound v d = threw calls_bound (λ o e h. cc h) d
  after_dispatch-Takes turn pending answer scope_error v d = threw scope_error (λ o e h. cc h) d
  after_dispatch-Takes turn pending answer (outcomes outs effects) v d =
      let (answers, authorized) =
        outcomes-Answers json_parse json_stringify registry granted (wire_items (calls_of answer))
          outs effects v d.dispatched in
      elim (Option-cases (first_refused outs)) [
        | inr (found, refused_first) ↦
            rw (after_dispatch, refused_first)
              (refuses outs effects found d answers authorized refused_first)
        | inl accepted ↦
            rw (after_dispatch, accepted)
              (carry_forward-Takes turn pending answer outs effects d accepted answers authorized)
      ]

  pub take_turn-Takes :
      (turn : ℕ) (pending : Request Q) (answer : Answer R)
      → Inv registry
      → Takes turn pending answer
          (take_turn {E = E} json_parse json_stringify registry granted turn pending answer)
  unfolding take_turn dispatch_turn
  take_turn-Takes turn pending answer v =
      let calls = calls_of answer in
      let ours = dispatchable registry calls in
      elim (Bool-cases (length calls == 0)) [
        | inl empty ↦
            rw (take_turn, empty)
              (returned
                (dispatchable-none registry calls (ground (arith, dispatchable-le registry calls))))
        | inr full ↦ elim (Bool-cases (length ours == 0)) [
          | inl nothing ↦
              rw (take_turn, full, nothing)
                (returned (dispatchable-none registry calls (ground arith)))
          | inr something ↦ elim (Bool-cases (length ours == length calls)) [
            | inr part ↦
                rw (take_turn, full, something, part)
                  (mixed (dispatchable_some registry calls (ground arith))
                    (dispatchable_part registry calls (ground arith)))
            | inl whole ↦
                let all_ours = dispatchable-All registry calls (ground arith) in
                let nonempty = length_ne_nil calls full in
                elim (Bool-cases (turn == max_dispatch_turns)) [
                  | inl last ↦
                      rw (take_turn, full, something, whole, last)
                        (exhausted (ground arith) nonempty all_ours)
                  | inr early ↦
                      rw (take_turn, full, something, whole, early)
                        (after_dispatch-Takes turn pending answer _ v (record {
                          early = ground arith;
                          nonempty = nonempty;
                          ours = all_ours;
                          dispatched = refl;
                        }))
                ]
          ]
        ]
      ]
