-- ===== src/Tools/Calls.antt =====
-- packages/router/src/tools.ts: what the tool calls that are accepted are.
use Prim.Native.String.{String}
use goatrouter.Common.{
  ◌≤◌, ◌*◌, ◌≡◌, refl, ◌∙◌, ap, subst, Bool, true, false, not, ◌&&◌, ◌||◌, Option, none, some, List,
  [], ◌∷◌, Text, codes, length, leb, ltb, ◌==◌, arith, inl, inr, Bool-cases,
}
use goatrouter.Errors.{Result, ok, ◌>>=◌, ◌>>◌, >>=-eq-ok}
use goatrouter.Model.{starts_with}
use goatrouter.Scopes.{count}
use goatrouter.Value.{
  Value, undefined, null, scalar, boolean, string, array, object, Items, no_items, item, Fields,
  plain_fields, get, has_only_keys, as_string, byte_length,
}
use goatrouter.Tools.{
  is_key, is_function_key, is_function_type, ToolCall, matches_tool_name, matches_tool_call_id,
  demand, guard, assert_tool_name, has_id, is_plain, read_tool_arguments, read_tool_call,
  read_tool_calls, parse_tool_calls,
}

ok_inj : {A : Type 0} {a b : A} → ok a ≡ ok b → a ≡ b
ok_inj h = cc h

guard-ok :
    {B : Type 0} (test : Bool) (stage : String) (k : Result B) {b : B}
    → (guard test stage >> k) ≡ ok b
    → (test ≡ true) × (k ≡ ok b)
guard-ok true stage k h = (refl, h)
guard-ok false stage k h = cc h

demanded :
    {A B : Type 0} (o : Option A) (stage : String) (k : A → Result B) {b : B}
    → (demand o stage >>= k) ≡ ok b
    → (a : A) × (o ≡ some a) × (k a ≡ ok b)
demanded none stage k h = cc h
demanded (some a) stage k h = (a, refl, h)

record IsName (value : Value) (name : Text) : Type 0 where
  read : as_string value ≡ some name
  matches : matches_tool_name name ≡ true
  unreserved : starts_with (codes "__") name ≡ false

assert_tool_name-IsName :
    (value : Value) (stage : String) (name : Text)
    → assert_tool_name value stage ≡ ok name
    → IsName value name
unfolding assert_tool_name
assert_tool_name-IsName value stage name h =
    let (s, read, k) = demanded (as_string value) stage _ h in
    let (test, e) =
      guard-ok (matches_tool_name s && not (starts_with (codes "__") s)) stage (ok s) k in
    let same : s ≡ name = cc e in
    record {
      read = read ∙ ap some same;
      matches = subst (λ n. matches_tool_name n ≡ true) same (ground arith);
      unreserved = subst (λ n. starts_with (codes "__") n ≡ false) same (ground arith);
    }

module _ (json_parse : Text → Option Value) where
  -- A call as it is accepted from an entry: its parts are those of the entry, unchanged, its id and
  -- its name fit their patterns, the name is not reserved, and the arguments are the text of a plain
  -- JSON object of at most 32 KiB.
  pub record IsCall (entry : Value) (call : ToolCall) : Type 0 where
    pub own : Fields
    pub fn : Fields
    pub parsed : Value
    pub plain : plain_fields entry ≡ some own
    pub plain_fn : plain_fields (get (codes "function") own) ≡ some fn
    pub id : as_string (get (codes "id") own) ≡ some call.id
    pub name : as_string (get (codes "name") fn) ≡ some call.name
    pub arguments : as_string (get (codes "arguments") fn) ≡ some call.arguments
    pub id_matches : matches_tool_call_id call.id ≡ true
    pub name_matches : matches_tool_name call.name ≡ true
    pub name_unreserved : starts_with (codes "__") call.name ≡ false
    pub bounded : byte_length call.arguments ≤ 32 * 1024
    pub json : json_parse call.arguments ≡ some parsed
    pub json_object : is_plain parsed ≡ true

  record IsArguments (value : Value) (args : Text) : Type 0 where
    parsed : Value
    read : as_string value ≡ some args
    bounded : byte_length args ≤ 32 * 1024
    json : json_parse args ≡ some parsed
    json_object : is_plain parsed ≡ true

  read_tool_arguments-IsArguments :
      (value : Value) (args : Text)
      → read_tool_arguments json_parse value ≡ ok args
      → IsArguments value args
  unfolding read_tool_arguments
  read_tool_arguments-IsArguments value args h =
      let (s, read, k) = demanded (as_string value) _ _ h in
      let (nonempty, k1) = guard-ok (ltb 0 (length s)) "tool-call-arguments-type" _ k in
      let (small, k2) =
        guard-ok (leb (byte_length s) (32 * 1024)) "tool-call-arguments-bytes" _ k1 in
      let (parsed, json, k3) = demanded (json_parse s) _ _ k2 in
      let (is_object, e) = guard-ok (is_plain parsed) "tool-call-arguments-object" (ok s) k3 in
      let same : s ≡ args = cc e in
      record {
        parsed = parsed;
        read = read ∙ ap some same;
        bounded = subst (λ a. byte_length a ≤ 32 * 1024) same (ground arith);
        json = subst (λ a. json_parse a ≡ some parsed) same json;
        json_object = is_object;
      }

  read_tool_call-IsCall :
      (seen : List Text) (entry : Value) (call : ToolCall)
      → read_tool_call json_parse seen entry ≡ ok call
      → IsCall entry call × (has_id seen call.id ≡ false)
  unfolding read_tool_call
  read_tool_call-IsCall seen entry call h =
      let (own, plain, k1) = demanded (plain_fields entry) _ _ h in
      let (keys, k2) = guard-ok (has_only_keys is_key own) _ _ k1 in
      let (type, k3) = guard-ok (is_function_type (as_string (get (codes "type") own))) _ _ k2 in
      let (id, read_id, k4) = demanded (as_string (get (codes "id") own)) _ _ k3 in
      let (id_matches, k5) = guard-ok (matches_tool_call_id id) _ _ k4 in
      let (short, k6) = guard-ok (leb (length id) 128) _ _ k5 in
      let (fresh, k7) = guard-ok (not (has_id seen id)) _ _ k6 in
      let (fn, plain_fn, k8) = demanded (plain_fields (get (codes "function") own)) _ _ k7 in
      let (fn_keys, k9) = guard-ok (has_only_keys is_function_key fn) _ _ k8 in
      let (name, named, k10) =
        >>=-eq-ok (assert_tool_name (get (codes "name") fn) "tool-call-name") _ k9 in
      let (args, argued, e) =
        >>=-eq-ok (read_tool_arguments json_parse (get (codes "arguments") fn)) _ k10 in
      let n = assert_tool_name-IsName (get (codes "name") fn) _ name named in
      let a = read_tool_arguments-IsArguments (get (codes "arguments") fn) args argued in
      let same : record { id = id; name = name; arguments = args } ≡ call = ok_inj e in
      subst (λ c. IsCall entry c × (has_id seen c.id ≡ false)) same
        (
          record {
            own = own;
            fn = fn;
            parsed = a.parsed;
            plain = plain;
            plain_fn = plain_fn;
            id = read_id;
            name = n.read;
            arguments = a.read;
            id_matches = id_matches;
            name_matches = n.matches;
            name_unreserved = n.unreserved;
            bounded = a.bounded;
            json = a.json;
            json_object = a.json_object;
          },
          ground arith,
        )

  -- The calls are those of the entries, in order, and no id is one that was seen before.
  abbrev pub Reads : List Text → Items → List ToolCall → Type 0
  Reads seen no_items [] = Unit
  Reads seen no_items (call ∷ calls) = ⊥
  Reads seen (item entry rest) [] = ⊥
  Reads seen (item entry rest) (call ∷ calls) =
      (IsCall entry call × (has_id seen call.id ≡ false)) × Reads (call.id ∷ seen) rest calls

  read_tool_calls-Reads :
      (seen : List Text) (items : Items) (calls : List ToolCall)
      → read_tool_calls json_parse seen items ≡ ok calls
      → Reads seen items calls
  unfolding read_tool_calls
  read_tool_calls-Reads seen no_items calls h =
      let same : [] ≡ calls = cc h in subst (Reads seen no_items) same tt
  read_tool_calls-Reads seen (item entry rest) calls h =
      let (call, one, k) = >>=-eq-ok (read_tool_call json_parse seen entry) _ h in
      let (more, others, e) = >>=-eq-ok (read_tool_calls json_parse (call.id ∷ seen) rest) _ k in
      let same : (call ∷ more) ≡ calls = ok_inj e in
      subst (Reads seen (item entry rest)) same (
        read_tool_call-IsCall seen entry call one,
        read_tool_calls-Reads (call.id ∷ seen) rest more others,
      )

  -- A payload of one to eight entries, read so.
  pub record IsToolCalls (v : Value) (calls : List ToolCall) : Type 0 where
    pub items : Items
    pub listed : v ≡ array items
    pub nonempty : 1 ≤ count items
    pub few : count items ≤ 8
    pub reads : Reads [] items calls

  array-IsToolCalls :
      (items : Items) (calls : List ToolCall)
      → parse_tool_calls json_parse (array items) ≡ ok calls
      → IsToolCalls (array items) calls
  unfolding parse_tool_calls
  array-IsToolCalls items calls h = elim (Bool-cases (count items == 0 || ltb 8 (count items))) [
    | inl outside ↦ cc (rw outside at h)
    | inr inside ↦ record {
      items = items;
      listed = refl;
      nonempty = ground arith;
      few = ground arith;
      reads = read_tool_calls-Reads [] items calls (rw inside at h);
    }
  ]

  -- Tool calls that are accepted come from an array of one to eight entries, one call for each in
  -- order. Each is a plain object whose id, name and arguments the call keeps unchanged; the id fits
  -- its pattern and is none of those before; the name fits its pattern and is not reserved; and the
  -- arguments are the text of a plain JSON object of at most 32 KiB.
  pub parse_tool_calls-IsToolCalls :
      (v : Value) (calls : List ToolCall)
      → parse_tool_calls json_parse v ≡ ok calls
      → IsToolCalls v calls
  unfolding parse_tool_calls
  parse_tool_calls-IsToolCalls (array items) calls h = array-IsToolCalls items calls h
  parse_tool_calls-IsToolCalls undefined calls h = cc h
  parse_tool_calls-IsToolCalls null calls h = cc h
  parse_tool_calls-IsToolCalls scalar calls h = cc h
  parse_tool_calls-IsToolCalls (boolean b) calls h = cc h
  parse_tool_calls-IsToolCalls (string s) calls h = cc h
  parse_tool_calls-IsToolCalls (object plain props) calls h = cc h
