-- ===== src/Tools/Tests.antt =====
-- A message with one tool call, and the theorem on accepted calls there.
use goatrouter.Common.{◌≡◌, refl, true, Option, some, List, [], ◌∷◌, Text, codes, text_eq}
use goatrouter.Errors.{ok}
use goatrouter.Model.{is_alnum, starts_with}
use goatrouter.Tools.{
  ToolCall, is_word_char, matches_tool_name, matches_tool_call_id, assert_tool_name, has_id,
  read_tool_arguments, read_tool_call, read_tool_calls, parse_tool_calls,
}
use goatrouter.Tools.Calls.{IsToolCalls, parse_tool_calls-IsToolCalls}
use goatrouter.Value.{
  Value, string, object, array, no_items, item, no_fields, field, get, has_only_keys, byte_length,
}

abbrev json_parse : Text → Option Value
json_parse s = some (object true no_fields)

abbrev payload : Value
payload = array (
    item
      (object true (
        field (codes "id") (string (codes "c1")) (
          field (codes "type") (string (codes "function")) (
            field (codes "function")
              (object true (
                field (codes "name") (string (codes "read_file"))
                  (field (codes "arguments") (string (codes "{}")) no_fields)))
              no_fields))))
      no_items)

abbrev accepted : List ToolCall
accepted = record { id = codes "c1"; name = codes "read_file"; arguments = codes "{}" } ∷ []

parse_payload : parse_tool_calls json_parse payload ≡ ok accepted
unfolding parse_tool_calls read_tool_calls read_tool_call read_tool_arguments assert_tool_name
    has_id matches_tool_call_id matches_tool_name is_word_char is_alnum starts_with get
    has_only_keys text_eq byte_length
parse_payload = refl

parse_tool_calls-IsToolCalls_example : IsToolCalls json_parse payload accepted
parse_tool_calls-IsToolCalls_example =
    parse_tool_calls-IsToolCalls json_parse payload accepted parse_payload
