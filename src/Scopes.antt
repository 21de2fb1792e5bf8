-- ===== src/Scopes.antt =====
-- packages/identity/src/scopes.ts: the scopes of a client key. A scope is the string that names it.
pub mod Assert
mod Tests
use Prim.Native.String.{String}
use goatrouter.Common.{
  Bool, true, false, not, ◌||◌, Option, none, some, List, [], ◌∷◌, ◌++◌, Text, codes, text_eq, any,
  length, ltb, ◌==◌, if◌then◌else◌, ℕ, suc,
}
use goatrouter.Value.{Value, undefined, null, scalar, boolean, string, array, object}
use goatrouter.Value.{Items, no_items, item}

abbrev pub client_scopes : List Text
client_scopes =
    codes "chat.completions"
    ∷ codes "models.read"
    ∷ codes "usage.read"
    ∷ codes "providers.read"
    ∷ codes "providers.write"
    ∷ codes "proxies.read"
    ∷ codes "proxies.write"
    ∷ codes "routes.read"
    ∷ codes "routes.write"
    ∷ codes "admin"
    ∷ []

-- `set.has(s)`.
unfoldable pub has : List Text → Text → Bool
has scopes s = any (text_eq s) scopes

unfoldable pub is_client_scope : Text → Bool
is_client_scope s = has client_scopes s

-- The scopes, or `IdentityError("invalid_scope", stage)`.
pub data Scopes : Type 0 where
  valid : List Text → Scopes
  invalid_scope : String → Scopes

abbrev pub count : Items → ℕ
count no_items = 0
count (item v rest) = suc (count rest)

-- The loop; `seen` and `scopes` hold the same strings.
unfoldable pub collect : List Text → Items → Scopes
unfolding is_client_scope
collect scopes no_items = valid scopes
collect scopes (item (string s) rest) =
    let more = collect (scopes ++ s ∷ []) rest in
    if not (is_client_scope s)
    then invalid_scope "scopes-unknown"
    else if has scopes s
    then invalid_scope "scopes-duplicate"
    else more
collect scopes (item _ rest) = invalid_scope "scopes-unknown"

unfoldable pub assert_scopes : Value → Scopes
assert_scopes (array items) =
    if count items == 0 || ltb (length client_scopes) (count items)
    then invalid_scope "scopes-count"
    else collect [] items
assert_scopes _ = invalid_scope "scopes-shape"

-- `none` is `IdentityError("invalid_scope", "required-scope")`.
unfoldable pub satisfies : List Text → Text → Option Bool
satisfies granted required =
    if is_client_scope required
    then some (has granted required || has granted (codes "admin"))
    else none
