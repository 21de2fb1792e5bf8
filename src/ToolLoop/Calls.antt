-- ===== src/ToolLoop/Calls.antt =====
-- apps/server/src/tool-loop.ts: how often a tool loop calls the router.
use Prim.Native.Nat.{ℕ, zero, suc}
use goatrouter.Common.{
  ◌+◌, ◌≤◌, ◌≡◌, refl, ap, Option, List, [], ◌∷◌, ◌++◌, map, Text, arith, inl, inr, length, ◌==◌,
  Bool-cases,
}
use goatrouter.Value.{Value}
use goatrouter.Capability.{Handler, lookup_capability}
use goatrouter.Capability.Dispatch.{Effect}
use goatrouter.ToolLoop.{
  max_dispatch_turns, WireToolCall, Answer, LoopEnding, tool_loop_error, tool_dispatch_exhausted,
  tool_dispatch_split, Reply, throws, replies, Request, answered, router_threw, Turn, stops,
  goes_on, LoopEvent, LoopRun, asks, handles, calls_of, dispatchable, after_turn, take_turn,
  run_turns, run_tool_loop,
}
use goatrouter.ToolLoop.Conversation.{Reply-cases}

-- The calls of the router in a log.
abbrev pub count_asks : {Q : Type 0} → List (LoopEvent Q) → ℕ
count_asks [] = 0
count_asks (asks pending ∷ log) = suc (count_asks log)
count_asks (handles effect ∷ log) = count_asks log

count_asks-handles :
    {Q : Type 0} (effects : List Effect) (log : List (LoopEvent Q))
    → count_asks (map handles effects ++ log) ≡ count_asks log
count_asks-handles [] log = refl
count_asks-handles (effect ∷ effects) log = count_asks-handles effects log

count_asks-handled :
    (Q : Type 0) (effects : List Effect) → count_asks {Q = Q} (map handles effects) ≡ 0
count_asks-handled Q [] = refl
count_asks-handled Q (effect ∷ effects) = count_asks-handled Q effects

after_turn-asked :
    {O Q R E : Type 0} (pending : Request Q) (t : Turn O Q R E)
    (round : Request Q → LoopRun O Q R E) (left : ℕ)
    → ((next : Request Q) → count_asks (round next).log ≤ left)
    → count_asks (after_turn pending t round).log ≤ suc left
after_turn-asked {Q = Q} pending (stops ending effects) round left more =
    omega (arith, count_asks-handled Q effects)
after_turn-asked pending (goes_on effects next) round left more =
    omega (arith, count_asks-handles effects (round next).log, more next)

-- Rounds that give the same go on in the same way.
after_turn-same :
    {O Q R E : Type 0} (pending : Request Q) (t : Turn O Q R E)
    (round again : Request Q → LoopRun O Q R E)
    → ((next : Request Q) → round next ≡ again next)
    → after_turn pending t round ≡ after_turn pending t again
after_turn-same pending (stops ending effects) round again same = refl
after_turn-same pending (goes_on effects next) round again same =
    ap (λ more. after_turn pending (goes_on effects next) (λ _. more)) (same next)

module _ {I O Q R E : Type 0} (json_parse : Text → Option Value) (json_stringify : O → Option Text)
    (registry : List (Handler I O)) (granted : Option (List Text))
    (chat : ℕ → Request Q → Reply R E) where
  run_turns-asked :
      (left turn : ℕ) (pending : Request Q)
      → count_asks (run_turns json_parse json_stringify registry granted chat left turn pending).log
        ≤ left
  unfolding run_turns
  run_turns-asked zero turn pending = omega arith
  run_turns-asked (suc left) turn pending = elim (Reply-cases (chat turn pending)) [
    | inl (thrown, asked) ↦ rw (run_turns, asked) (omega arith)
    | inr (answer, asked) ↦
        rw (run_turns, asked)
          (after_turn-asked pending
            (take_turn json_parse json_stringify registry granted turn pending answer)
            (λ next. run_turns json_parse json_stringify registry granted chat left (suc turn) next)
            left (λ next. run_turns-asked left (suc turn) next))
  ]

  -- The test of the turn against the bound ends the fourth turn.
  take_turn_last :
      (pending : Request Q) (answer : Answer R)
      → (ending : LoopEnding O R E) × (effects : List Effect) × (take_turn json_parse json_stringify
            registry granted max_dispatch_turns pending answer
          ≡ stops ending effects)
  unfolding take_turn
  take_turn_last pending answer =
      let calls = calls_of answer in
      let ours = dispatchable registry calls in
      elim (Bool-cases (length calls == 0)) [
        | inl empty ↦ (answered answer, [], rw (take_turn, empty) refl)
        | inr full ↦ elim (Bool-cases (length ours == 0)) [
          | inl nothing ↦ (answered answer, [], rw (take_turn, full, nothing) refl)
          | inr something ↦ elim (Bool-cases (length ours == length calls)) [
            | inr part ↦ (
              tool_loop_error tool_dispatch_split "tool-loop-partition",
              [],
              rw (take_turn, full, something, part) refl,
            )
            | inl whole ↦ (
              tool_loop_error tool_dispatch_exhausted "tool-loop-turns",
              [],
              rw (take_turn, full, something, whole) refl,
            )
          ]
        ]
      ]

  -- The rounds after a turn matter only if the turn is not the last and the loop goes on.
  run_turns_round :
      (left more turn : ℕ) (pending : Request Q)
      → ((answer : Answer R)
          → let t = take_turn json_parse json_stringify registry granted turn pending answer in
            after_turn pending t (λ next.
              run_turns json_parse json_stringify registry granted chat more (suc turn) next)
            ≡ after_turn pending t (λ next.
              run_turns json_parse json_stringify registry granted chat left (suc turn) next))
      → run_turns json_parse json_stringify registry granted chat (suc more) turn pending
        ≡ run_turns json_parse json_stringify registry granted chat (suc left) turn pending
  unfolding run_turns
  run_turns_round left more turn pending same = elim (Reply-cases (chat turn pending)) [
    | inl (thrown, asked) ↦ rw (run_turns, asked) refl
    | inr (answer, asked) ↦ rw (run_turns, asked) (same answer)
  ]

  -- From a turn on, rounds beyond those up to the fourth turn change nothing.
  run_turns_enough :
      (left more turn : ℕ) (pending : Request Q)
      → turn + left ≡ max_dispatch_turns
      → left ≤ more
      → run_turns json_parse json_stringify registry granted chat (suc more) turn pending
        ≡ run_turns json_parse json_stringify registry granted chat (suc left) turn pending
  run_turns_enough zero more turn pending e enough =
      run_turns_round zero more turn pending (λ answer.
        let last : turn ≡ max_dispatch_turns = omega (arith, e) in
        let (ending, effects, stopped) = take_turn_last pending answer in rw (last, stopped) refl)
  run_turns_enough (suc left) zero turn pending e enough = absurd (omega (arith, enough))
  run_turns_enough (suc left) (suc more) turn pending e enough =
      run_turns_round (suc left) (suc more) turn pending (λ answer.
        after_turn-same pending
          (take_turn json_parse json_stringify registry granted turn pending answer) _ _
          (λ next.
            run_turns_enough left more (suc turn) next (omega (arith, e)) (omega (arith, enough))))

  -- The loop ends by the test of the turn in its body, not by its number of rounds: with any number
  -- of rounds from four on, it does what the loop of four rounds does, and calls the router at most
  -- four times, whatever the router answers, whatever is registered and whatever the handlers give.
  pub run_tool_loop-asked :
      (rounds : ℕ) (request : Request Q)
      → max_dispatch_turns ≤ rounds
      → (run_turns json_parse json_stringify registry granted chat rounds 1 request
          ≡ run_tool_loop json_parse json_stringify registry granted chat request)
        × (count_asks
              (run_turns json_parse json_stringify registry granted chat rounds 1 request).log
            ≤ max_dispatch_turns)
  run_tool_loop-asked zero request enough = absurd (omega (arith, enough))
  run_tool_loop-asked (suc more) request enough =
      let same = run_turns_enough 3 more 1 request refl (omega (arith, enough)) in
      (same, rw same (run_turns-asked 4 1 request))

-- One call of the router and what it gives.
abbrev pub asked_once : {O Q R E : Type 0} → Request Q → Reply R E → LoopRun O Q R E
asked_once request (throws e) = record { ending = router_threw e; log = asks request ∷ [] }
asked_once request (replies answer) = record { ending = answered answer; log = asks request ∷ [] }

dispatchable-empty :
    (I O : Type 0) (calls : List WireToolCall) → dispatchable {I = I} {O = O} [] calls ≡ []
unfolding dispatchable lookup_capability
dispatchable-empty I O [] = refl
dispatchable-empty I O (call ∷ calls) = dispatchable-empty I O calls

-- With an empty registry, which is how it is shipped, a tool loop is one call of the router with the
-- request as it was given, and returns or throws what that call does.
pub run_tool_loop_empty :
    {O Q R E : Type 0} (I : Type 0) (json_parse : Text → Option Value)
    (json_stringify : O → Option Text) (granted : Option (List Text))
    (chat : ℕ → Request Q → Reply R E) (request : Request Q)
    → run_tool_loop {I = I} {O = O} json_parse json_stringify [] granted chat request
      ≡ asked_once request (chat 1 request)
unfolding run_turns take_turn
run_tool_loop_empty {O = O} I json_parse json_stringify granted chat request =
    elim (Reply-cases (chat 1 request)) [
      | inl (thrown, asked) ↦ rw (run_turns, asked) refl
      | inr (answer, asked) ↦ elim (Bool-cases (length (calls_of answer) == 0)) [
        | inl empty ↦ rw (run_turns, asked, take_turn, empty) refl
        | inr full ↦
            rw (run_turns, asked, take_turn, full, dispatchable-empty I O (calls_of answer)) refl
      ]
    ]
