-- ===== src/Capability/Dispatch.antt =====
-- packages/capability/src/dispatch.ts: dispatching the tool calls of a model response.
-- The principal is its granted scopes, none when they are no `Set`; a depth is a number, none when
-- it is no natural number. `JSON.parse` and `JSON.stringify` are parameters, none where they throw
-- or give no string. `Effect` records the calls of a handler's `parse` and `run`.
pub mod Authority
pub mod Batches
use Prim.Native.Nat.{ℕ}
use Prim.Native.String.{String}
use goatrouter.Common.{
  ◌*◌, Bool, true, false, not, ◌&&◌, ◌||◌, Option, none, some, List, [], ◌∷◌, ◌++◌, Text, codes,
  text_eq, all, length, leb, ltb, ◌==◌, if◌then◌else◌,
}
use goatrouter.Model.{is_alnum}
use goatrouter.Scopes.{satisfies, count}
use goatrouter.Value.{
  Value, array, Items, no_items, item, Fields, plain_fields, get, has_only_keys, as_string,
  byte_length,
}
use goatrouter.Capability.{Handler, matches_name, lookup_capability}

pub data DispatchRefusalCode : Type 0 where
  invalid_tool_call invalid_tool_arguments tool_arguments_too_large : DispatchRefusalCode
  unknown_capability capability_forbidden capability_failed : DispatchRefusalCode
  dispatch_depth_exceeded : DispatchRefusalCode

-- `DispatchOutcome`: the id and the name reported, and the output or the refusal with its stage.
pub data DispatchOutcome (O : Type 0) : Type 0 where
  returned : Text → Text → O → DispatchOutcome O
  refused : Text → Text → DispatchRefusalCode → String → DispatchOutcome O

pub data Effect : Type 0 where
  parses runs : Text → Effect

-- `[A-Za-z0-9_-]`, and `CALL_ID_PATTERN`.
unfoldable pub is_id_char : ℕ → Bool
is_id_char c = is_alnum c || c == b'_' || c == b'-'

unfoldable pub matches_call_id : Text → Bool
matches_call_id [] = false
matches_call_id (c ∷ rest) = is_alnum c && (leb (length rest) 127 && all is_id_char rest)

unfoldable pub reportable_id : Value → Text
reportable_id entry = elim (plain_fields entry) [
  | none ↦ codes "call_unidentified"
  | some fields ↦ elim (as_string (get (codes "id") fields)) [
    | none ↦ codes "call_unidentified"
    | some id ↦ if matches_call_id id then id else codes "call_unidentified"
  ]
]

unfoldable pub reportable_name : Value → Text
reportable_name entry = elim (plain_fields entry) [
  | none ↦ codes "unknown"
  | some fields ↦ elim (plain_fields (get (codes "function") fields)) [
    | none ↦ codes "unknown"
    | some fn ↦ elim (as_string (get (codes "name") fn)) [
      | none ↦ codes "unknown"
      | some name ↦ if matches_name name then name else codes "unknown"
    ]
  ]
]

abbrev is_call_key : Text → Bool
is_call_key k =
    text_eq k (codes "id")
    || text_eq k (codes "type")
    || text_eq k (codes "function")
    || text_eq k (codes "index")

abbrev is_function_key : Text → Bool
is_function_key k = text_eq k (codes "name") || text_eq k (codes "arguments")

-- `readEnvelope`: the name and the arguments, or the stage that refused.
pub data Envelope : Type 0 where
  envelope : Text → Text → Envelope
  malformed : String → Envelope

-- `entry.function` of a call.
abbrev read_function : Value → Envelope
read_function value = elim (plain_fields value) [
  | none ↦ malformed "dispatch-call-function-shape"
  | some fn ↦
      if not (has_only_keys is_function_key fn)
      then malformed "dispatch-call-function-unknown-key"
      else elim (as_string (get (codes "name") fn)) [
        | none ↦ malformed "dispatch-call-name"
        | some name ↦ elim (as_string (get (codes "arguments") fn)) [
          | none ↦ malformed "dispatch-arguments-type"
          | some args ↦
              if length args == 0 then malformed "dispatch-arguments-type" else envelope name args
        ]
      ]
]

-- A field that is a string of which the test holds.
abbrev is_string_that : (Text → Bool) → Value → Bool
is_string_that test value = elim (as_string value) [ none ↦ false | some s ↦ test s ]

unfoldable pub read_envelope : Value → Envelope
read_envelope entry = elim (plain_fields entry) [
  | none ↦ malformed "dispatch-call-shape"
  | some fields ↦
      if not (has_only_keys is_call_key fields)
      then malformed "dispatch-call-unknown-key"
      else (if not (is_string_that (text_eq (codes "function")) (get (codes "type") fields))
          then malformed "dispatch-call-type"
          else (if not (is_string_that matches_call_id (get (codes "id") fields))
              then malformed "dispatch-call-id"
              else read_function (get (codes "function") fields)))
]

abbrev pub max_bytes : ℕ
max_bytes = 32 * 1024

abbrev pub in_depth : Option ℕ → Bool
in_depth none = false
in_depth (some depth) = leb 1 depth && leb depth 4

-- `options.depth ?? 1`.
abbrev pub depth_of : Option (Option ℕ) → Option ℕ
depth_of none = some 1
depth_of (some depth) = depth

-- `dispatchToolCalls`: a batch that is refused, an error of `satisfies`, or the outcomes.
pub data Batch (O : Type 0) : Type 0 where
  calls_shape calls_bound scope_error : Batch O
  outcomes : List (DispatchOutcome O) → List Effect → Batch O

module _ {I O : Type 0} (json_parse : Text → Option Value) (json_stringify : O → Option Text) where
  -- The check of the output.
  unfoldable pub check_output : Handler I O → Text → Text → O → DispatchOutcome O
  check_output h id reported output = elim (json_stringify output) [
    | none ↦ refused id reported capability_failed "dispatch-output"
    | some serialized ↦
        if ltb max_bytes (byte_length serialized)
        then refused id reported capability_failed "dispatch-output"
        else returned id h.name output
  ]

  -- `parse`, then `run`.
  unfoldable pub invoke : Handler I O → Text → Text → Value → DispatchOutcome O × List Effect
  invoke h id reported raw = elim (h.parse raw) [
    | none ↦ (refused id reported invalid_tool_arguments "dispatch-parse", parses h.name ∷ [])
    | some input ↦ elim (h.run input) [
      | none ↦
          (refused id reported capability_failed "dispatch-run", parses h.name ∷ runs h.name ∷ [])
      | some output ↦ (check_output h id reported output, parses h.name ∷ runs h.name ∷ [])
    ]
  ]

  -- The lookup and the scope check; `none` is the error that `satisfies` throws.
  unfoldable pub authorize :
      List (Handler I O)
      → Option (List Text)
      → Text
      → Text
      → Text
      → Value
      → Option (DispatchOutcome O × List Effect)
  authorize registry granted id reported name raw = elim (lookup_capability registry name) [
    | none ↦ some (refused id reported unknown_capability "dispatch-lookup", [])
    | some h ↦ elim granted [
      | none ↦ some (refused id reported capability_forbidden "dispatch-scope", [])
      | some scopes ↦ elim (satisfies scopes h.required_scope) [
        | none ↦ none
        | some allowed ↦
            if allowed
            then some (invoke h id reported raw)
            else some (refused id reported capability_forbidden "dispatch-scope", [])
      ]
    ]
  ]

  -- The arguments of a call, then its lookup.
  unfoldable pub read_arguments :
      List (Handler I O)
      → Option (List Text)
      → Text
      → Text
      → Text
      → Text
      → Option (DispatchOutcome O × List Effect)
  read_arguments registry granted id reported name args =
      if ltb max_bytes (byte_length args)
      then some (refused id reported tool_arguments_too_large "dispatch-arguments-bytes", [])
      else elim (json_parse args) [
        | none ↦ some (refused id reported invalid_tool_arguments "dispatch-arguments-json", [])
        | some raw ↦ elim (plain_fields raw) [
          | none ↦ some (refused id reported invalid_tool_arguments "dispatch-arguments-object", [])
          | some _ ↦ authorize registry granted id reported name raw
        ]
      ]

  unfoldable pub dispatch_one :
      List (Handler I O)
      → Option (List Text)
      → Option ℕ
      → Value
      → Option (DispatchOutcome O × List Effect)
  dispatch_one registry granted depth entry =
      let id = reportable_id entry in
      let reported = reportable_name entry in
      if not (in_depth depth)
      then some (refused id reported dispatch_depth_exceeded "dispatch-depth-bound", [])
      else elim (read_envelope entry) [
        | malformed stage ↦ some (refused id reported invalid_tool_call stage, [])
        | envelope name args ↦ read_arguments registry granted id reported name args
      ]

  -- The calls in order; an error that is thrown ends the batch.
  unfoldable pub dispatch_each :
      List (Handler I O)
      → Option (List Text)
      → Option ℕ
      → Items
      → Option (List (DispatchOutcome O) × List Effect)
  dispatch_each registry granted depth no_items = some ([], [])
  dispatch_each registry granted depth (item entry rest) =
      elim (dispatch_one registry granted depth entry) [
        | none ↦ none
        | some one ↦ elim (dispatch_each registry granted depth rest) [
          | none ↦ none
          | some more ↦ some (one.0 ∷ more.0, one.1 ++ more.1)
        ]
      ]

  unfoldable pub dispatch_tool_calls :
      List (Handler I O) → Option (List Text) → Option (Option ℕ) → Value → Batch O
  dispatch_tool_calls registry granted depth (array calls) =
      if count calls == 0
      then calls_shape
      else (if ltb 8 (count calls)
          then calls_bound
          else elim (dispatch_each registry granted (depth_of depth) calls) [
            | none ↦ scope_error
            | some (made, effects) ↦ outcomes made effects
          ])
  dispatch_tool_calls registry granted depth _ = calls_shape
