-- ===== src/Principals.antt =====
-- The registry of principals, their authentication and their grants (memory_router/principals.py).
-- Instants are numbers. `authenticate` starts from the key id and the secret of the token; a digest
-- is its lowercase hexadecimal text. The dicts are association lists with unique keys, and the index
-- of the keys is a parameter, built once from the registry.
mod Registry
pub mod Laws
mod Tests
pub use Registry.*
use hindsight_memory_router.Common.{
  Result, ok, err, runtime_error, ℕ, String, Bool, true, false, Option, none, some, List, [], ◌∷◌,
  ◌==◌, leb, not, ◌&&◌, ◌||◌, if◌then◌else◌, is_some, member, text_le,
}

-- dict.get
unfoldable pub lookup {ℓ} : {A : Type ℓ} → String → List (String × A) → Option A
lookup k [] = none
lookup k ((n, a) ∷ rest) = let found = lookup k rest in if n == k then some a else found

-- `value or base`, where 0 is false
abbrev pub or_base : Option ℕ → ℕ → ℕ
or_base none base = base
or_base (some n) base = if leb n 0 then base else n

-- _merge_limit
unfoldable pub merge_limit :
    ResolvedPrincipalLimit → Option PrincipalOperationLimit → ResolvedPrincipalLimit
merge_limit base none = base
merge_limit base (some o) = record {
  rate_limit_max = or_base o.rate_limit_max base.rate_limit_max;
  rate_limit_window_ms = or_base o.rate_limit_window_ms base.rate_limit_window_ms;
  concurrency_max = or_base o.concurrency_max base.concurrency_max;
  max_body_bytes = or_base o.max_body_bytes base.max_body_bytes;
}

-- _limits_for
unfoldable pub limits_for : PrincipalRegistry → Principal → LimitOperation → ResolvedPrincipalLimit
limits_for registry principal op =
    merge_limit (merge_limit (builtin_limits op) (registry.defaults op)) (principal.limits op)

-- `key.expires_at is not None and moment >= key.expires_at`
abbrev pub has_expired : ℕ → Option ℕ → Bool
has_expired now none = false
has_expired now (some t) = leb t now

-- `self.registry.principals[principal_id]` and the session
unfoldable pub session_of :
    PrincipalRegistry → String → String → Option Principal → Result Authentication
session_of registry principal_id key_id none = err (runtime_error "KeyError")
session_of registry principal_id key_id (some p) = ok (
    authenticated record {
      principal_id = principal_id;
      key_id = key_id;
      grants = p.grants;
      limits = limits_for registry p;
      source = p.source;
    })

-- the checks of `authenticate` on the entry of the index
unfoldable pub check_entry :
    PrincipalRegistry
    → (String → String)
    → String
    → String
    → ℕ
    → Option (String × PrincipalKey)
    → Result Authentication
check_entry registry token_digest key_id secret now none = ok unknown_key
check_entry registry token_digest key_id secret now (some (principal_id, key)) =
    if not (token_digest secret == key.sha256)
    then ok wrong_secret
    else if is_some key.revoked_at
    then ok revoked
    else if has_expired now key.expires_at
    then ok expired
    else session_of registry principal_id key_id (lookup principal_id registry.principals)

-- authenticate, from `_parse_token` on
unfoldable pub authenticate :
    PrincipalRegistry
    → List (String × (String × PrincipalKey))
    → (String → String)
    → Option (String × String)
    → ℕ
    → Result Authentication
authenticate registry index token_digest none now = ok invalid_format
authenticate registry index token_digest (some (key_id, secret)) now =
    check_entry registry token_digest key_id secret now (lookup key_id index)

abbrev pub is_control_plane : String → String → Bool
is_control_plane principal_id source =
    (principal_id == "control-plane") && (source == "control-plane")

-- any(grant.bank == bank and scope in grant.scopes)
unfoldable pub granted : String → String → List PrincipalGrant → Bool
granted scope bank [] = false
granted scope bank (g ∷ gs) = ((g.bank == bank) && member scope g.scopes) || granted scope bank gs

abbrev pub policy_of : Option BankConfiguration → Option (List String)
policy_of none = none
policy_of (some c) = c.access_policy

abbrev pub allowed_by : String → String → Option (List String) → Bool
allowed_by principal_id source none = true
allowed_by principal_id source (some allowed) =
    is_control_plane principal_id source || member principal_id allowed

-- _policy_allows
unfoldable pub policy_allows : PrincipalRegistry → String → String → String → Bool
policy_allows registry principal_id source bank =
    allowed_by principal_id source (policy_of (lookup bank registry.banks))

unfoldable pub authorize : PrincipalRegistry → PrincipalSession → String → String → Bool
authorize registry session scope bank =
    granted scope bank session.grants
    && policy_allows registry session.principal_id session.source bank

unfoldable pub authorize_current : PrincipalRegistry → String → String → String → Bool
authorize_current registry principal_id scope bank =
    elim (lookup principal_id registry.principals) [
      | none ↦ false
      | some p ↦ granted scope bank p.grants && policy_allows registry principal_id p.source bank
    ]

-- sorted(set)
unfoldable pub insert_text : String → List String → List String
insert_text s [] = s ∷ []
insert_text s (t ∷ ts) =
    let rest = insert_text s ts in
    if t == s then t ∷ ts else if text_le s t then s ∷ t ∷ ts else t ∷ rest

-- the banks of the comprehension in `_banks_with_scope`
unfoldable pub banks_of :
    PrincipalRegistry → PrincipalSession → String → List PrincipalGrant → List String
banks_of registry session scope [] = []
banks_of registry session scope (g ∷ gs) =
    let rest = banks_of registry session scope gs in
    if member scope g.scopes && policy_allows registry session.principal_id session.source g.bank
    then insert_text g.bank rest
    else rest

-- _banks_with_scope
unfoldable pub banks_with_scope : PrincipalRegistry → PrincipalSession → String → List String
banks_with_scope registry session scope = banks_of registry session scope session.grants

abbrev pub scope_bank_list : String
scope_bank_list = "bank.list"

abbrev pub list_banks : PrincipalRegistry → PrincipalSession → List String
list_banks registry session = banks_with_scope registry session scope_bank_list

abbrev pub quarantine_review_banks : PrincipalRegistry → PrincipalSession → List String
quarantine_review_banks registry session = banks_with_scope registry session "quarantine.review"

unfoldable pub inherited_banks :
    PrincipalRegistry → PrincipalSession → List String → String → List String
inherited_banks registry parent [] scope = []
inherited_banks registry parent (b ∷ bs) scope =
    let rest = inherited_banks registry parent bs scope in
    if authorize registry parent scope b then insert_text b rest else rest

unfoldable pub scope_limit_operation : String → LimitOperation
scope_limit_operation scope =
    if scope == "memory.recall"
    then recall
    else if scope == "memory.retain"
    then retain
    else if scope == "memory.reflect"
    then reflect
    else if (scope == "bank.admin") || (scope == "quarantine.review")
    then admin
    else config
