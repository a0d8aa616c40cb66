-- ===== src/Principals/Registry.antt =====
-- The registry of principals, its built-in limits and the sessions that it gives
-- (memory_router/principals.py).
use hindsight_memory_router.Common.{ℕ, String, Option, List}

pub record PrincipalKey : Type 0 where
  pub id : String
  pub sha256 : String
  pub created_at : ℕ
  pub expires_at : Option ℕ
  pub revoked_at : Option ℕ

pub record PrincipalGrant : Type 0 where
  pub bank : String
  pub scopes : List String

pub record PrincipalOperationLimit : Type 0 where
  pub rate_limit_max : Option ℕ
  pub rate_limit_window_ms : Option ℕ
  pub concurrency_max : Option ℕ
  pub max_body_bytes : Option ℕ

pub data LimitOperation : Type 0 where
  recall : LimitOperation
  retain : LimitOperation
  reflect : LimitOperation
  config : LimitOperation
  admin : LimitOperation

-- the field of `PrincipalLimits` of an operation, which `getattr` reads
abbrev pub PrincipalLimits : Type 0
PrincipalLimits = LimitOperation → Option PrincipalOperationLimit

pub record Principal : Type 0 where
  pub keys : List PrincipalKey
  pub grants : List PrincipalGrant
  pub limits : PrincipalLimits
  pub source : String

-- `allowedPrincipals` of the access policy of a bank, where it has one
pub record BankConfiguration : Type 0 where
  pub access_policy : Option (List String)

pub record PrincipalRegistry : Type 0 where
  pub principals : List (String × Principal)
  pub defaults : PrincipalLimits
  pub banks : List (String × BankConfiguration)

pub record ResolvedPrincipalLimit : Type 0 where
  pub rate_limit_max : ℕ
  pub rate_limit_window_ms : ℕ
  pub concurrency_max : ℕ
  pub max_body_bytes : ℕ

abbrev pub builtin_limits : LimitOperation → ResolvedPrincipalLimit
builtin_limits recall = record {
  rate_limit_max = 120;
  rate_limit_window_ms = 60000;
  concurrency_max = 4;
  max_body_bytes = 32768;
}
builtin_limits retain = record {
  rate_limit_max = 30;
  rate_limit_window_ms = 60000;
  concurrency_max = 2;
  max_body_bytes = 524288;
}
builtin_limits reflect = record {
  rate_limit_max = 30;
  rate_limit_window_ms = 60000;
  concurrency_max = 2;
  max_body_bytes = 32768;
}
builtin_limits config = record {
  rate_limit_max = 60;
  rate_limit_window_ms = 60000;
  concurrency_max = 2;
  max_body_bytes = 131072;
}
builtin_limits admin = record {
  rate_limit_max = 10;
  rate_limit_window_ms = 60000;
  concurrency_max = 1;
  max_body_bytes = 131072;
}

pub record PrincipalSession : Type 0 where
  pub principal_id : String
  pub key_id : String
  pub grants : List PrincipalGrant
  pub limits : LimitOperation → ResolvedPrincipalLimit
  pub source : String

pub data Authentication : Type 0 where
  authenticated : PrincipalSession → Authentication
  invalid_format : Authentication
  unknown_key : Authentication
  wrong_secret : Authentication
  expired : Authentication
  revoked : Authentication
