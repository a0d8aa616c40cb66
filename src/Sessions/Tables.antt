-- ===== src/Sessions/Tables.antt =====
-- The tables of the human login, its limits and its errors (memory_router/human_auth_store.py).
use Prim.Native.String
use Prim.Native.String.{◌++◌}
use hindsight_memory_router.Common.{
  ℕ, String, Bool, Option, List, ◌==◌, nat_eq, ◌&&◌, if◌then◌else◌, Error, http_error,
  runtime_error, Result, ok, err,
}

-- the row of `human_auth_policy`
pub record Policy : Type 0 where
  pub generation : String
  pub activation_epoch : ℕ

-- a row of `human_auth_logins`
pub record Login : Type 0 where
  pub transaction_id : String
  pub generation : String
  pub activation_epoch : ℕ
  pub state : String
  pub challenge : String
  pub redirect_uri : String
  pub nonce : String
  pub expires_at_ms : ℕ

-- a row of `human_auth_sessions`
pub record Session : Type 0 where
  pub key_id : String
  pub generation : String
  pub principal_id : String
  pub secret_digest : String
  pub grants : String
  pub expires_at_ms : ℕ
  pub revoked : Bool

pub record Store : Type 0 where
  pub policy : Option Policy
  pub logins : List Login
  pub sessions : List Session

pub record LoginTransaction : Type 0 where
  pub activation_epoch : ℕ
  pub redirect_uri : String
  pub nonce : String

pub record IssuedSession : Type 0 where
  pub token : String
  pub key_id : String
  pub expires_at : ℕ

pub record StoredSession (Grants : Type 0) : Type 0 where
  pub principal_id : String
  pub key_id : String
  pub grants : Grants

abbrev pub login_ttl_ms : ℕ
login_ttl_ms = 300000

abbrev pub session_ttl_ms : ℕ
session_ttl_ms = 3600000

abbrev pub max_logins : ℕ
max_logins = 1000

abbrev pub max_sessions : ℕ
max_sessions = 10000

abbrev pub max_personal : ℕ
max_personal = 20

abbrev pub unavailable : Error
unavailable = http_error 503 "human_auth_policy_inactive"

abbrev pub invalid_login : Error
invalid_login = http_error 401 "human_login_required"

abbrev pub capacity : Error
capacity = http_error 429 "human_auth_capacity"

-- an INSERT that meets the primary key
abbrev pub duplicate_key : Error
duplicate_key = runtime_error "duplicate key"

-- `async with self.db.transaction()`: the new state, or the old one under a raise
abbrev pub commit {ℓ} : {A : Type ℓ} → Store → Result (A × Store) → Result A × Store
commit s (ok (a, s')) = (ok a, s')
commit s (err e) = (err e, s)

-- one byte a character
abbrev pub is_ascii : String → Bool
is_ascii s = nat_eq (String.len s) (String.count s)

-- hmac.compare_digest on texts, which takes ASCII only
unfoldable pub compare_digest : String → String → Result Bool
compare_digest s t =
    if is_ascii s && is_ascii t then ok (s == t) else err (runtime_error "non-ASCII characters")
