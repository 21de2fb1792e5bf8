-- ===== src/Errors.antt =====
-- packages/router/src/errors.ts: the router's error codes, and errors as values.
-- A `throw` is the `err` of a result; the message of an error is fixed by its code and stage.
use Prim.Native.String.{String}
use goatrouter.Common.{◌≡◌, refl, Bool, if◌then◌else◌}

pub data RouterErrorCode : Type 0 where
  invalid_model invalid_route_id invalid_route_config invalid_request : RouterErrorCode
  route_already_exists route_not_found no_route no_free_route : RouterErrorCode
  all_routes_failed invalid_response response_too_large rate_limited : RouterErrorCode
  tools_unsupported : RouterErrorCode

pub record RouterError : Type 0 where
  pub code : RouterErrorCode
  pub stage : String

abbrev pub router_error : RouterErrorCode → String → RouterError
router_error code stage = record { code = code; stage = stage }

-- What a function of the source returns, or the `RouterError` that it throws.
pub data Result {ℓ} (Value : Type ℓ) : Type ℓ where
  err : RouterError → Result Value
  ok : Value → Result Value

infixl 5 ◌>>=◌
-- The statements after one that may throw.
abbrev pub ◌>>=◌ {ℓ κ} :
    {Value : Type ℓ} {Next : Type κ} → Result Value → (Value → Result Next) → Result Next
err thrown >>= continue = err thrown
ok value >>= continue = continue value

infixl 5 ◌>>◌
abbrev pub ◌>>◌ {κ} : {Next : Type κ} → Result (Unit {0}) → Result Next → Result Next
checked >> rest = checked >>= (λ _. rest)

-- `if (!test) throw new RouterError(code, stage)`.
abbrev pub require : Bool → RouterErrorCode → String → Result (Unit {0})
require test code stage = if test then ok tt else err (router_error code stage)

-- A chain that returns went through its first statement.
pub >>=-eq-ok {ℓ κ} :
    {Value : Type ℓ} {Next : Type κ} (first : Result Value) (continue : Value → Result Next)
    {result : Next}
    → (first >>= continue) ≡ ok result
    → (value : Value) × (first ≡ ok value) × (continue value ≡ ok result)
>>=-eq-ok (err thrown) continue returned = cc
>>=-eq-ok (ok value) continue returned = (value, refl, returned)
