-- ===== src/Capability.antt =====
-- packages/capability/src/registry.ts: the registry of the things that a model may ask for.
-- A handler has the types of its inputs and outputs as parameters, and its `parse` and `run` are
-- functions, which give none where they throw: a handler that answers the same input in another way
-- at another call is not represented. The `typeof` tests hold by the types. The `Map` is the list of
-- its handlers in order of registration, each under its own name.
pub mod Registry
pub mod Dispatch
mod Tests
use goatrouter.Common.{
  ℕ, suc, Bool, true, false, not, ◌&&◌, ◌||◌, Option, none, some, List, [], ◌∷◌, ◌++◌, Text, codes,
  text_eq, any, all, length, leb, ltb, ◌==◌, if◌then◌else◌, map,
}
use goatrouter.Scopes.{is_client_scope, has}
use goatrouter.Value.{Value}

pub record Handler (I O : Type 0) : Type 0 where
  pub name : Text
  pub required_scope : Text
  pub parse : Value → Option I
  pub run : I → Option O

-- `[a-z]`, and `[a-z0-9_.-]`.
abbrev pub is_lower : ℕ → Bool
is_lower c = leb b'a' c && leb c b'z'

unfoldable pub is_name_char : ℕ → Bool
is_name_char c = is_lower c || (leb b'0' c && leb c b'9') || c == b'_' || c == b'.' || c == b'-'

-- `CAPABILITY_NAME_PATTERN`.
unfoldable pub matches_name : Text → Bool
unfolding is_name_char
matches_name [] = false
matches_name (c ∷ rest) =
    is_lower c && (leb 2 (length rest) && (leb (length rest) 63 && all is_name_char rest))

abbrev pub reserved_names : List Text
reserved_names =
    codes "constructor"
    ∷ codes "prototype"
    ∷ codes "__proto__"
    ∷ codes "__definegetter__"
    ∷ codes "__definesetter__"
    ∷ codes "__lookupgetter__"
    ∷ codes "__lookupsetter__"
    ∷ []

-- The codes of `CapabilityError` that `registerCapability` throws.
pub data RegisterError : Type 0 where
  invalid_capability_name invalid_capability_scope : RegisterError
  capability_already_registered capability_registry_full : RegisterError

module _ {I O : Type 0} where
  unfoldable pub lookup_capability : List (Handler I O) → Text → Option (Handler I O)
  lookup_capability [] name = none
  lookup_capability (h ∷ rest) name =
      if text_eq name h.name then some h else lookup_capability rest name

  -- `registry.has(name)`.
  unfoldable pub is_registered : List (Handler I O) → Text → Bool
  is_registered [] name = false
  is_registered (h ∷ rest) name = text_eq name h.name || is_registered rest name

  -- The registry after the call, and the error that it throws.
  unfoldable pub register_capability :
      List (Handler I O) → Handler I O → List (Handler I O) × Option RegisterError
  register_capability registry h =
      if not (matches_name h.name) || has reserved_names h.name
      then (registry, some invalid_capability_name)
      else (if not (is_client_scope h.required_scope)
          then (registry, some invalid_capability_scope)
          else (if is_registered registry h.name
              then (registry, some capability_already_registered)
              else (if leb 128 (length registry)
                  then (registry, some capability_registry_full)
                  else (registry ++ h ∷ [], none))))

  unfoldable pub registered_capability_names : List (Handler I O) → List Text
  registered_capability_names registry = map (λ h. h.name) registry

  unfoldable pub reset_capabilities : List (Handler I O) → List (Handler I O)
  reset_capabilities registry = []
