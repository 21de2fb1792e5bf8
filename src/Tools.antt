-- ===== src/Tools.antt =====
-- packages/router/src/tools.ts: the validation of the tool calls of an assistant message.
-- `JSON.parse` is a parameter, none where it throws.
pub mod Calls
mod Tests
use Prim.Native.Nat.{ℕ}
use Prim.Native.String.{String}
use goatrouter.Common.{
  ◌*◌, Bool, true, false, not, ◌&&◌, ◌||◌, Option, none, some, List, [], ◌∷◌, ◌++◌, Text, codes,
  text_eq, all, any, length, leb, ltb, ◌==◌, if◌then◌else◌,
}
use goatrouter.Errors.{Result, ok, err, router_error, invalid_request, require, ◌>>=◌, ◌>>◌}
use goatrouter.Model.{is_alnum, starts_with}
use goatrouter.Scopes.{count}
use goatrouter.Value.{
  Value, array, Items, no_items, item, Fields, plain_fields, get, has_only_keys, as_string,
  byte_length,
}

pub record ToolCall : Type 0 where
  pub id : Text
  pub name : Text
  pub arguments : Text

-- `[A-Za-z0-9_-]`.
unfoldable pub is_word_char : ℕ → Bool
is_word_char c = is_alnum c || c == b'_' || c == b'-'

abbrev is_name_start : ℕ → Bool
is_name_start c = (is_alnum c && not (leb b'0' c && leb c b'9')) || c == b'_'

-- `TOOL_NAME_RE`.
unfoldable pub matches_tool_name : Text → Bool
matches_tool_name [] = false
matches_tool_name (c ∷ rest) = is_name_start c && (leb (length rest) 63 && all is_word_char rest)

-- `TOOL_CALL_ID_RE`.
unfoldable pub matches_tool_call_id : Text → Bool
matches_tool_call_id [] = false
matches_tool_call_id (c ∷ rest) = is_alnum c && (leb (length rest) 127 && all is_word_char rest)

-- A value that is missing is refused at the stage.
abbrev pub demand {ℓ} : {A : Type ℓ} → Option A → String → Result A
demand none stage = err (router_error invalid_request stage)
demand (some a) stage = ok a

abbrev pub guard : Bool → String → Result (Unit {0})
guard test stage = require test invalid_request stage

unfoldable pub assert_tool_name : Value → String → Result Text
assert_tool_name value stage = do
  name ← demand (as_string value) stage
  guard (matches_tool_name name && not (starts_with (codes "__") name)) stage
  ok name

abbrev pub is_key : Text → Bool
is_key k =
    text_eq k (codes "id")
    || text_eq k (codes "type")
    || text_eq k (codes "function")
    || text_eq k (codes "index")

abbrev pub is_function_key : Text → Bool
is_function_key k = text_eq k (codes "name") || text_eq k (codes "arguments")

abbrev pub is_function_type : Option Text → Bool
is_function_type none = false
is_function_type (some type) = text_eq type (codes "function")

unfoldable pub has_id : List Text → Text → Bool
has_id seen id = any (text_eq id) seen

abbrev pub is_plain : Value → Bool
is_plain value = elim (plain_fields value) [ none ↦ false | some own ↦ true ]

module _ (json_parse : Text → Option Value) where
  -- `fn.arguments`, validated and kept as it is.
  unfoldable pub read_tool_arguments : Value → Result Text
  read_tool_arguments value = do
    args ← demand (as_string value) "tool-call-arguments-type"
    guard (ltb 0 (length args)) "tool-call-arguments-type"
    guard (leb (byte_length args) (32 * 1024)) "tool-call-arguments-bytes"
    parsed ← demand (json_parse args) "tool-call-arguments-json"
    guard (is_plain parsed) "tool-call-arguments-object"
    ok args

  -- One entry, past the ids seen.
  unfoldable pub read_tool_call : List Text → Value → Result ToolCall
  unfolding read_tool_arguments
  read_tool_call seen entry = do
    own ← demand (plain_fields entry) "tool-call-shape"
    guard (has_only_keys is_key own) "tool-call-unknown-key"
    guard (is_function_type (as_string (get (codes "type") own))) "tool-call-type"
    id ← demand (as_string (get (codes "id") own)) "tool-call-id"
    guard (matches_tool_call_id id) "tool-call-id"
    guard (leb (length id) 128) "tool-call-id-length"
    guard (not (has_id seen id)) "tool-call-duplicate-id"
    fn ← demand (plain_fields (get (codes "function") own)) "tool-call-function-shape"
    guard (has_only_keys is_function_key fn) "tool-call-function-unknown-key"
    name ← assert_tool_name (get (codes "name") fn) "tool-call-name"
    args ← read_tool_arguments (get (codes "arguments") fn)
    ok (record { id = id; name = name; arguments = args })

  unfoldable pub read_tool_calls : List Text → Items → Result (List ToolCall)
  read_tool_calls seen no_items = ok []
  read_tool_calls seen (item entry rest) = do
    call ← read_tool_call seen entry
    more ← read_tool_calls (call.id ∷ seen) rest
    ok (call ∷ more)

  unfoldable pub parse_tool_calls : Value → Result (List ToolCall)
  parse_tool_calls (array calls) =
      if count calls == 0 || ltb 8 (count calls)
      then err (router_error invalid_request "tool-calls")
      else read_tool_calls [] calls
  parse_tool_calls _ = err (router_error invalid_request "tool-calls")
