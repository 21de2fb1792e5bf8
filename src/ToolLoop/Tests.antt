-- ===== src/ToolLoop/Tests.antt =====
-- A chat whose first answer asks for a registered capability, and the theorems on the loop there.
use Prim.Native.Nat.{ℕ}
use goatrouter.Common.{
  ◌≤◌, ◌≡◌, refl, subst, true, Option, none, some, List, [], ◌∷◌, Text, codes, text_eq, ◌==◌,
  if◌then◌else◌, arith,
}
use goatrouter.Scopes.{is_client_scope, has, satisfies}
use goatrouter.Value.{
  Value, string, object, no_items, item, no_fields, get, has_only_keys, byte_length,
}
use goatrouter.Model.{is_alnum}
use goatrouter.Capability.{
  Handler, is_name_char, matches_name, is_registered, lookup_capability, register_capability,
}
use goatrouter.Capability.Registry.{Inv, registers, registry_after, registry_after-Inv}
use goatrouter.Capability.Dispatch.{
  is_id_char, matches_call_id, reportable_id, reportable_name, read_envelope, check_output, invoke,
  authorize, read_arguments, dispatch_one, dispatch_each, dispatch_tool_calls,
}
use goatrouter.ToolLoop.{
  max_dispatch_turns, WireToolCall, Reply, replies, Request, answered, first_refused, dispatchable,
  carry_forward, after_dispatch, dispatch_turn, take_turn, run_turns, run_tool_loop, LoopRun,
}
use goatrouter.ToolLoop.Conversation.{Talks, run_tool_loop-Talks}
use goatrouter.ToolLoop.Calls.{count_asks, asked_once, run_tool_loop-asked, run_tool_loop_empty}

-- `sum` needs `models.read` and answers 7 whatever its input.
abbrev sum : Handler ℕ ℕ
sum = record {
  name = codes "sum";
  required_scope = codes "models.read";
  parse = λ v. some 3;
  run = λ n. some 7;
}

abbrev registry : List (Handler ℕ ℕ)
registry = sum ∷ []

registered : registry_after (registers sum ∷ []) ≡ registry
unfolding registry_after register_capability matches_name is_name_char has is_client_scope
    is_registered text_eq
registered = refl

registry-Inv : Inv registry
registry-Inv = subst Inv registered (registry_after-Inv (registers sum ∷ []))

abbrev granted : Option (List Text)
granted = some (codes "models.read" ∷ [])

abbrev json_parse : Text → Option Value
json_parse s = some (object true no_fields)

abbrev json_stringify : ℕ → Option Text
json_stringify n = some (codes "7")

abbrev call : WireToolCall
call = record { id = codes "c1"; name = codes "sum"; arguments = codes "{}" }

-- The first answer has the call, and the others have none.
abbrev router_chat : ℕ → Request (Unit {0}) → Reply ℕ (Unit {0})
router_chat turn request =
    replies (record { tool_calls = if turn == 1 then some (call ∷ []) else none; rest = turn })

abbrev request : Request (Unit {0})
request = record { messages = some (item (string (codes "hello")) no_items); rest = tt }

abbrev finished : LoopRun ℕ (Unit {0}) ℕ (Unit {0})
finished = run_tool_loop json_parse json_stringify registry granted router_chat request

two_turns :
    (finished.ending ≡ answered (record { tool_calls = none; rest = 2 }))
    × (count_asks finished.log ≡ 2)
unfolding run_turns take_turn dispatch_turn after_dispatch carry_forward first_refused dispatchable
    dispatch_tool_calls dispatch_each dispatch_one read_arguments authorize invoke check_output
    read_envelope reportable_id reportable_name matches_call_id matches_name is_name_char is_id_char
    is_alnum lookup_capability satisfies has is_client_scope get has_only_keys text_eq byte_length
two_turns = (refl, refl)

run_tool_loop-Talks_example :
    Talks json_parse json_stringify registry granted router_chat 1 request
      (run_tool_loop json_parse json_stringify registry granted router_chat request).ending
      (run_tool_loop json_parse json_stringify registry granted router_chat request).log
run_tool_loop-Talks_example =
    run_tool_loop-Talks json_parse json_stringify registry granted router_chat request registry-Inv

run_tool_loop-asked_example :
    (run_turns json_parse json_stringify registry granted router_chat 7 1 request
      ≡ run_tool_loop json_parse json_stringify registry granted router_chat request)
    × (count_asks (run_turns json_parse json_stringify registry granted router_chat 7 1 request).log
        ≤ max_dispatch_turns)
run_tool_loop-asked_example =
    run_tool_loop-asked json_parse json_stringify registry granted router_chat 7 request
      (omega arith)

run_tool_loop_empty_example :
    run_tool_loop {I = ℕ} json_parse json_stringify [] granted router_chat request
    ≡ asked_once request (router_chat 1 request)
run_tool_loop_empty_example =
    run_tool_loop_empty ℕ json_parse json_stringify granted router_chat request
