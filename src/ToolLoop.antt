-- ===== src/ToolLoop.antt =====
-- apps/server/src/tool-loop.ts: the turns of a chat whose tool calls this deployment runs itself.
-- `router.chat` is a parameter: what it gives at each turn for a request. The registry and the
-- principal are those of the dispatch. A request is its messages and the rest; the messages are none
-- where they are no array, which the router refuses, and of which the spread throws.
pub mod Partition
pub mod Turns
pub mod Conversation
pub mod Calls
mod Tests
use Prim.Native.Nat.{ℕ, zero, suc}
use Prim.Native.String.{String}
use goatrouter.Common.{
  Bool, true, false, not, Option, none, some, List, [], ◌∷◌, ◌++◌, map, Text, codes, length, ◌==◌,
  if◌then◌else◌,
}
use goatrouter.Value.{
  Value, undefined, null, string, array, object, Items, no_items, item, no_fields, field,
}
use goatrouter.Capability.{Handler, lookup_capability}
use goatrouter.Capability.Dispatch.{
  DispatchRefusalCode, DispatchOutcome, returned, refused, Effect, Batch, calls_shape, calls_bound,
  scope_error, outcomes, dispatch_tool_calls,
}

abbrev pub max_dispatch_turns : ℕ
max_dispatch_turns = 4

pub data ToolLoopErrorCode : Type 0 where
  tool_dispatch_exhausted tool_dispatch_split : ToolLoopErrorCode

pub record WireToolCall : Type 0 where
  pub id : Text
  pub name : Text
  pub arguments : Text

-- The call as the value `{ id, type, function: { name, arguments } }`.
abbrev pub wire_value : WireToolCall → Value
wire_value call = object true (
    field (codes "id") (string call.id) (
      field (codes "type") (string (codes "function")) (
        field (codes "function")
          (object true (
            field (codes "name") (string call.name)
              (field (codes "arguments") (string call.arguments) no_fields)))
          no_fields)))

abbrev pub wire_items : List WireToolCall → Items
wire_items [] = no_items
wire_items (call ∷ calls) = item (wire_value call) (wire_items calls)

abbrev pub append_items : Items → Items → Items
append_items no_items more = more
append_items (item x rest) more = item x (append_items rest more)

-- The `ChatResult`: its tool calls, none where the field is undefined, and the rest.
pub record Answer (R : Type 0) : Type 0 where
  pub tool_calls : Option (List WireToolCall)
  pub rest : R

pub data Reply (R E : Type 0) : Type 0 where
  throws : E → Reply R E
  replies : Answer R → Reply R E

pub record Request (Q : Type 0) : Type 0 where
  pub messages : Option Items
  pub rest : Q

-- How the loop ends: what it returns, or what it throws.
pub data LoopEnding (O R E : Type 0) : Type 0 where
  answered : Answer R → LoopEnding O R E
  router_threw : E → LoopEnding O R E
  tool_loop_error : ToolLoopErrorCode → String → LoopEnding O R E
  capability_refused : DispatchRefusalCode → String → LoopEnding O R E
  dispatch_threw : Batch O → LoopEnding O R E
  spread_threw : LoopEnding O R E

-- What a turn does after the router has answered.
pub data Turn (O Q R E : Type 0) : Type 0 where
  stops : LoopEnding O R E → List Effect → Turn O Q R E
  goes_on : List Effect → Request Q → Turn O Q R E

-- Calls of the router and of handlers, in order.
pub data LoopEvent (Q : Type 0) : Type 0 where
  asks : Request Q → LoopEvent Q
  handles : Effect → LoopEvent Q

pub record LoopRun (O Q R E : Type 0) : Type 0 where
  pub ending : LoopEnding O R E
  pub log : List (LoopEvent Q)

-- The loop after a turn: it is over, or its next round has the request carried forward.
abbrev pub after_turn :
    {O Q R E : Type 0} → Request Q → Turn O Q R E → (Request Q → LoopRun O Q R E) → LoopRun O Q R E
after_turn pending (stops ending effects) round = record {
  ending = ending;
  log = asks pending ∷ map handles effects;
}
after_turn pending (goes_on effects next) round =
    let more = round next in
    record { ending = more.ending; log = asks pending ∷ (map handles effects ++ more.log) }

-- `calls === undefined` is as good as no calls.
abbrev pub calls_of : {R : Type 0} → Answer R → List WireToolCall
calls_of answer = elim answer.tool_calls [ none ↦ [] | some calls ↦ calls ]

-- `outcomes.find((outcome) => outcome.status === "refused")`.
unfoldable pub first_refused :
    {O : Type 0} → List (DispatchOutcome O) → Option (DispatchRefusalCode × String)
first_refused [] = none
first_refused (returned id name output ∷ rest) = first_refused rest
first_refused (refused id name code stage ∷ rest) = some (code, stage)

module _ {I O : Type 0} (registry : List (Handler I O)) where
  abbrev pub is_ours : WireToolCall → Bool
  is_ours call = elim (lookup_capability registry call.name) [ none ↦ false | some h ↦ true ]

  unfoldable pub dispatchable : List WireToolCall → List WireToolCall
  dispatchable [] = []
  dispatchable (call ∷ calls) =
      let rest = dispatchable calls in if is_ours call then call ∷ rest else rest

-- `{ role: "assistant", content: null, tool_calls: calls }`.
abbrev pub assistant_message : List WireToolCall → Value
assistant_message calls = object true (
    field (codes "role") (string (codes "assistant")) (
      field (codes "content") null
        (field (codes "tool_calls") (array (wire_items calls)) no_fields)))

abbrev pub tool_message : Text → Value → Value
tool_message id content = object true (
    field (codes "role") (string (codes "tool"))
      (field (codes "tool_call_id") (string id) (field (codes "content") content no_fields)))

module _ {O : Type 0} (json_stringify : O → Option Text) where
  -- The message of an outcome; a refused one would carry the text of `null`.
  abbrev pub tool_answer : DispatchOutcome O → Value
  tool_answer (returned id name output) =
      tool_message id (elim (json_stringify output) [ none ↦ undefined | some text ↦ string text ])
  tool_answer (refused id name code stage) = tool_message id (string (codes "null"))

  abbrev pub tool_answers : List (DispatchOutcome O) → Items
  tool_answers [] = no_items
  tool_answers (out ∷ outs) = item (tool_answer out) (tool_answers outs)

module _ {I O Q R E : Type 0} (json_parse : Text → Option Value) (json_stringify : O → Option Text)
    (registry : List (Handler I O)) (granted : Option (List Text)) where
  -- The request of the next turn.
  unfoldable pub carry_forward :
      Request Q → List WireToolCall → List (DispatchOutcome O) → List Effect → Turn O Q R E
  carry_forward pending calls outs effects = elim pending.messages [
    | none ↦ stops spread_threw effects
    | some messages ↦ goes_on effects (record {
      messages = some (
          append_items messages
            (item (assistant_message calls) (tool_answers json_stringify outs)));
      rest = pending.rest;
    })
  ]

  -- The outcomes of a dispatch, or what it throws.
  unfoldable pub after_dispatch : Request Q → List WireToolCall → Batch O → Turn O Q R E
  after_dispatch pending calls (outcomes outs effects) = elim (first_refused outs) [
    | some found ↦ stops (capability_refused found.0 found.1) effects
    | none ↦ carry_forward pending calls outs effects
  ]
  after_dispatch pending calls thrown = stops (dispatch_threw thrown) []

  unfoldable pub dispatch_turn : Request Q → List WireToolCall → Turn O Q R E
  dispatch_turn pending calls = after_dispatch pending calls (
      dispatch_tool_calls json_parse json_stringify registry granted (some (some 1))
        (array (wire_items calls)))

  -- The body of the loop after `router.chat` has returned.
  unfoldable pub take_turn : ℕ → Request Q → Answer R → Turn O Q R E
  take_turn turn pending answer =
      let calls = calls_of answer in
      let ours = dispatchable registry calls in
      if length calls == 0
      then stops (answered answer) []
      else (if length ours == 0
          then stops (answered answer) []
          else (if not (length ours == length calls)
              then stops (tool_loop_error tool_dispatch_split "tool-loop-partition") []
              else (if turn == max_dispatch_turns
                  then stops (tool_loop_error tool_dispatch_exhausted "tool-loop-turns") []
                  else dispatch_turn pending calls)))

  -- The loop at a turn, with the turns that are left.
  unfoldable pub run_turns : (ℕ → Request Q → Reply R E) → ℕ → ℕ → Request Q → LoopRun O Q R E
  run_turns chat zero turn pending = record {
    ending = tool_loop_error tool_dispatch_exhausted "tool-loop-fallthrough";
    log = [];
  }
  run_turns chat (suc left) turn pending = elim (chat turn pending) [
    | throws e ↦ record { ending = router_threw e; log = asks pending ∷ [] }
    | replies answer ↦
        after_turn pending (take_turn turn pending answer)
          (λ next. run_turns chat left (suc turn) next)
  ]

  abbrev pub run_tool_loop : (ℕ → Request Q → Reply R E) → Request Q → LoopRun O Q R E
  run_tool_loop chat request = run_turns chat max_dispatch_turns 1 request
