-- ===== src/ToolLoop/Conversation.antt =====
-- apps/server/src/tool-loop.ts: the conversation that the turns of a chat build.
use Prim.Native.Nat.{ℕ, zero, suc}
use goatrouter.Common.{
  ◌+◌, ◌≢◌, ◌⊎◌, inl, inr, ◌≡◌, refl, Option, List, [], ◌∷◌, ◌++◌, map, Text, arith,
}
use goatrouter.Value.{Value}
use goatrouter.Capability.{Handler}
use goatrouter.Capability.Registry.{Inv}
use goatrouter.Capability.Dispatch.{Effect}
use goatrouter.ToolLoop.{
  max_dispatch_turns, Answer, Reply, throws, replies, Request, LoopEnding, router_threw, Turn,
  stops, goes_on, LoopEvent, asks, handles, calls_of, after_turn, LoopRun, take_turn, run_turns,
  run_tool_loop,
}
use goatrouter.ToolLoop.Turns.{GoesOn, Stops, Takes, take_turn-Takes}

pub Reply-cases :
    {R E : Type 0} (r : Reply R E)
    → ((e : E) × (r ≡ throws e)) ⊎ ((answer : Answer R) × (r ≡ replies answer))
Reply-cases (throws e) = inl (e, refl)
Reply-cases (replies answer) = inr (answer, refl)

module _ {I O Q R E : Type 0} (json_parse : Text → Option Value) (json_stringify : O → Option Text)
    (registry : List (Handler I O)) (granted : Option (List Text))
    (chat : ℕ → Request Q → Reply R E) where
  -- What the loop does from a turn on: the router throws, or it answers and the loop stops, or it
  -- answers and the loop goes on with the request that the calls and their results extend.
  pub data Talks : ℕ → Request Q → LoopEnding O R E → List (LoopEvent Q) → Type 0 where
    fails :
        {turn : ℕ} {pending : Request Q} (e : E)
        → chat turn pending ≡ throws e
        → Talks turn pending (router_threw e) (asks pending ∷ [])
    ends :
        {turn : ℕ} {pending : Request Q} (answer : Answer R) (ending : LoopEnding O R E)
        (effects : List Effect)
        → chat turn pending ≡ replies answer
        → Stops json_parse json_stringify registry granted turn pending answer ending effects
        → Talks turn pending ending (asks pending ∷ map handles effects)
    continues :
        {turn : ℕ} {pending : Request Q} {ending : LoopEnding O R E} {log : List (LoopEvent Q)}
        (answer : Answer R) (effects : List Effect) (next : Request Q)
        → chat turn pending ≡ replies answer
        → GoesOn json_parse json_stringify registry granted turn pending
            (calls_of answer)
            effects
            next
        → Talks (suc turn) next ending log
        → Talks turn pending ending (asks pending ∷ (map handles effects ++ log))

  after_turn-Talks :
      (turn : ℕ) (pending : Request Q) (answer : Answer R) (t : Turn O Q R E)
      (round : Request Q → LoopRun O Q R E)
      → chat turn pending ≡ replies answer
      → Takes E json_parse json_stringify registry granted turn pending answer t
      → ((next : Request Q)
          → turn ≢ max_dispatch_turns
          → Talks (suc turn) next (round next).ending (round next).log)
      → Talks turn pending (after_turn pending t round).ending (after_turn pending t round).log
  after_turn-Talks turn pending answer (stops ending effects) round asked takes more =
      ends answer ending effects asked takes
  after_turn-Talks turn pending answer (goes_on effects next) round asked takes more =
      continues answer effects next asked takes (more next takes.early)

  run_turns_from :
      (left turn : ℕ) (pending : Request Q)
      → Inv registry
      → ((next : Request Q)
          → turn ≢ max_dispatch_turns
          → Talks
              (suc turn)
              next
              (run_turns json_parse json_stringify registry granted chat left
                (suc turn)
                next).ending
              (run_turns json_parse json_stringify registry granted chat left (suc turn) next).log)
      → Talks turn pending
          (run_turns json_parse json_stringify registry granted chat (suc left) turn pending).ending
          (run_turns json_parse json_stringify registry granted chat (suc left) turn pending).log
  unfolding run_turns
  run_turns_from left turn pending v more = elim (Reply-cases (chat turn pending)) [
    | inl (thrown, asked) ↦ rw (run_turns, asked) (fails thrown asked)
    | inr (answer, asked) ↦
        rw (run_turns, asked)
          (after_turn-Talks turn pending answer
            (take_turn json_parse json_stringify registry granted turn pending answer)
            (λ next. run_turns json_parse json_stringify registry granted chat left (suc turn) next)
            asked
            (take_turn-Takes E json_parse json_stringify registry granted turn pending answer v)
            more)
  ]

  run_turns-Talks :
      (left turn : ℕ) (pending : Request Q)
      → Inv registry
      → turn + left ≡ max_dispatch_turns
      → Talks turn pending
          (run_turns json_parse json_stringify registry granted chat (suc left) turn pending).ending
          (run_turns json_parse json_stringify registry granted chat (suc left) turn pending).log
  run_turns-Talks zero turn pending v e =
      run_turns_from zero turn pending v (λ next early. absurd (early (omega arith)))
  run_turns-Talks (suc left) turn pending v e =
      run_turns_from (suc left) turn pending v
        (λ next early. run_turns-Talks left (suc turn) next v (omega arith))

  -- With a registry that meets its invariant, a tool loop is a conversation as `Talks` has it, from
  -- the first turn and the request as it was given. On a turn that calls handlers, every call of the
  -- answer is registered and the turn is not the last; what is called comes of the dispatch of all of
  -- them and is allowed by the principal's scopes. A batch that is registered in part calls no handler
  -- and ends in `tool_dispatch_split`, and one that is registered in whole calls none on the last turn
  -- and ends in `tool_dispatch_exhausted`. The loop goes on only when no call was refused, with the
  -- calls and one result for each of them, in order and under their ids, after the messages of before.
  -- What is returned is an answer none of whose calls is registered, and the statement after the loop
  -- is not reached.
  pub run_tool_loop-Talks :
      (request : Request Q)
      → Inv registry
      → Talks 1 request
          (run_tool_loop json_parse json_stringify registry granted chat request).ending
          (run_tool_loop json_parse json_stringify registry granted chat request).log
  run_tool_loop-Talks request v = run_turns-Talks 3 1 request v refl
