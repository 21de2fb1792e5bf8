-- ===== src/Route.antt =====
-- packages/router/src/repository.ts: the route record. The fields that no modelled code reads, the
-- time stamps and `maxAttempts`, are left out.
use goatrouter.Common.{ℕ, Bool, Option, Text}

pub record Route : Type 0 where
  pub id : Text
  pub model : Text
  pub provider_id : Text
  pub proxy_id : Option Text
  pub force_direct : Bool
  pub free_only : Bool
  pub priority : ℕ
  pub enabled : Bool
  pub request_timeout_ms : ℕ
