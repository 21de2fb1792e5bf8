-- ===== src/Capability/Tests.antt =====
-- A registry with one capability, a batch of calls of it, and the theorems there.
use Prim.Native.Nat.{ℕ}
use goatrouter.Common.{
  ◌≡◌, ◌≢◌, refl, true, false, Option, none, some, List, [], ◌∷◌, arith, Text, codes, text_eq, All,
}
use goatrouter.Scopes.{is_client_scope, has, satisfies}
use goatrouter.Value.{
  Value, string, object, array, Items, no_items, item, no_fields, field, get, has_only_keys,
  byte_length,
}
use goatrouter.Model.{is_alnum}
use goatrouter.Capability.{
  Handler, is_name_char, matches_name, is_registered, lookup_capability, register_capability,
}
use goatrouter.Capability.Registry.{
  Inv, Change, registers, registry_after, registry_after-Inv, register_capability-lookup,
}
use goatrouter.Capability.Dispatch.{
  DispatchOutcome, returned, refused, capability_forbidden, Effect, parses, runs, outcomes,
  is_id_char, matches_call_id, reportable_id, reportable_name, read_envelope, check_output, invoke,
  authorize, read_arguments, dispatch_one, dispatch_each, dispatch_tool_calls, depth_of,
}
use goatrouter.Capability.Dispatch.Authority.{Authorized}
use goatrouter.Capability.Dispatch.Batches.{Answers, entries, dispatch_tool_calls_lem}

-- `sum` needs `models.read` and answers 7 whatever its input.
abbrev sum : Handler ℕ ℕ
sum = record {
  name = codes "sum";
  required_scope = codes "models.read";
  parse = λ v. some 3;
  run = λ n. some 7;
}

abbrev product : Handler ℕ ℕ
product = record {
  name = codes "product";
  required_scope = codes "admin";
  parse = λ v. some 3;
  run = λ n. some 9;
}

abbrev changes : List (Change ℕ ℕ)
changes = registers product ∷ registers sum ∷ []

registry_after-Inv_example : Inv (registry_after changes)
registry_after-Inv_example = registry_after-Inv changes

abbrev registry : List (Handler ℕ ℕ)
registry = sum ∷ product ∷ []

after_changes : registry_after changes ≡ registry
unfolding registry_after register_capability matches_name is_name_char has is_client_scope
    is_registered text_eq
after_changes = refl

register_product : register_capability (sum ∷ []) product ≡ (registry, none)
unfolding register_capability matches_name is_name_char has is_client_scope is_registered text_eq
register_product = refl

sum_ne_product : codes "sum" ≢ codes "product"
sum_ne_product h = cc h

register_capability-lookup_example :
    (is_registered (sum ∷ []) (codes "product") ≡ false)
    × (lookup_capability registry (codes "product") ≡ some product)
    × (lookup_capability registry (codes "sum") ≡ lookup_capability (sum ∷ []) (codes "sum"))
register_capability-lookup_example =
    register_capability-lookup (sum ∷ []) registry product (codes "sum") register_product
      sum_ne_product

-- A call of a capability.
abbrev call_of : Text → Text → Value
call_of id name = object true (
    field (codes "id") (string id) (
      field (codes "type") (string (codes "function")) (
        field (codes "function")
          (object true (
            field (codes "name") (string name)
              (field (codes "arguments") (string (codes "{}")) no_fields)))
          no_fields)))

abbrev calls : Items
calls =
    item (call_of (codes "c1") (codes "sum"))
      (item (call_of (codes "c2") (codes "product")) no_items)

abbrev json_parse : Text → Option Value
json_parse s = some (object true no_fields)

abbrev json_stringify : ℕ → Option Text
json_stringify n = some (codes "7")

-- The principal may read models, and is no admin.
abbrev granted : Option (List Text)
granted = some (codes "models.read" ∷ [])

calls_dispatched :
    dispatch_tool_calls json_parse json_stringify registry granted none (array calls)
    ≡ outcomes
        (returned (codes "c1") (codes "sum") 7
          ∷ refused (codes "c2") (codes "product") capability_forbidden "dispatch-scope"
          ∷ [])
        (parses (codes "sum") ∷ runs (codes "sum") ∷ [])
unfolding dispatch_tool_calls dispatch_each dispatch_one read_arguments authorize invoke
    check_output read_envelope reportable_id reportable_name matches_call_id is_id_char is_alnum
    matches_name is_name_char get has_only_keys text_eq byte_length lookup_capability satisfies
    is_client_scope has
calls_dispatched = refl

dispatch_tool_calls_lem_example :
    (outs : List (DispatchOutcome ℕ)) × (effects : List Effect) × (dispatch_tool_calls json_parse
        json_stringify
        (registry_after changes)
        granted
        none
        (array calls)
      ≡ outcomes outs effects)
    × Answers (entries calls) outs
    × All
        (Authorized json_parse json_stringify (registry_after changes) granted (depth_of none))
        effects
dispatch_tool_calls_lem_example =
    dispatch_tool_calls_lem json_parse json_stringify (registry_after changes) granted none calls
      (registry_after-Inv changes) (omega arith) (omega arith)
