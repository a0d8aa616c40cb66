-- ===== src/Sessions.antt =====
-- The logins and sessions of human reviewers (memory_router/human_auth_store.py).
-- A whole method is one transaction: raising rolls back. The database's clock (`now`), the random
-- identifiers and secrets, `hashlib.sha256` and pydantic's codec of the grants are parameters. The
-- tables exist; `initialize` is modelled from its INSERT on. `retry-after` is left out.
pub mod Tables
mod Laws
mod Caps
mod Schedules
mod Once
mod Tests
pub use Tables.*
unfoldable pub use Tables.{compare_digest}
use Prim.Native.String
use Prim.Native.String.{◌++◌}
use hindsight_memory_router.Common.Table.{count_where, find_where, update_where, delete_where}
use hindsight_memory_router.Common.{
  ℕ, String, Bool, true, false, Option, none, some, List, [], ◌∷◌, ◌==◌, nat_eq, ltb, leb, not,
  ◌&&◌, ◌||◌, if◌then◌else◌, Error, http_error, runtime_error, Result, ok, err, raise_if, and_then,
  ◌+◌, ◌/◌, is_some,
}

-- _require_generation
unfoldable pub require_generation : String → Store → Result ℕ
require_generation gen s = elim s.policy [
  | none ↦ err unavailable
  | some p ↦ if p.generation == gen then ok p.activation_epoch else err unavailable
]

-- ON CONFLICT(id) DO NOTHING
abbrev pub or_policy : Option Policy → String → Option Policy
or_policy none gen = some record { generation = gen; activation_epoch = 1 }
or_policy (some p) gen = some p

unfoldable pub initialize_work : String → Bool → Store → Result (Unit {0} × Store)
initialize_work gen check_generation s =
    let s' = record s { policy = or_policy s.policy gen } in
    if check_generation
    then and_then (require_generation gen s') (λ _. ok (tt, s'))
    else ok (tt, s')

unfoldable pub initialize : String → Bool → Store → Result (Unit {0}) × Store
initialize gen check_generation s = commit s (initialize_work gen check_generation s)

-- _prune
unfoldable pub prune : ℕ → Store → Store
prune now s = record s {
  logins = delete_where (λ (l : Login). leb l.expires_at_ms now) s.logins;
  sessions = delete_where (λ (x : Session). leb x.expires_at_ms now) s.sessions;
}

-- UPDATE human_auth_policy SET generation=?,activation_epoch=activation_epoch+1
abbrev pub activate_policy : String → Option Policy → Option Policy
activate_policy gen none = none
activate_policy gen (some p) =
    some record { generation = gen; activation_epoch = p.activation_epoch + 1 }

abbrev pub set_revoked : Session → Session
set_revoked x = record x { revoked = true }

unfoldable pub activate : String → ℕ → Store → Store
activate gen now s = prune now record {
  policy = activate_policy gen s.policy;
  logins = [];
  sessions = update_where (λ _. true) set_revoked s.sessions;
}

-- _require_session_capacity
unfoldable pub require_session_capacity : ℕ → Store → Result (Unit {0})
require_session_capacity now s =
    raise_if (leb max_sessions (count_where (λ (x : Session). ltb now x.expires_at_ms) s.sessions))
      capacity

abbrev pub has_transaction : String → Login → Bool
has_transaction id l = l.transaction_id == id

-- INSERT INTO human_auth_logins
unfoldable pub insert_login : Login → Store → Result Store
insert_login l s =
    if is_some (find_where (has_transaction l.transaction_id) s.logins)
    then err duplicate_key
    else ok record s { logins = l ∷ s.logins }

-- `id` is the random `transaction_id`
unfoldable pub create_login_work :
    String → String → String → String → String → String → ℕ → Store → Result (String × Store)
create_login_work gen id state challenge redirect_uri nonce now s =
    and_then (require_generation gen s) (λ epoch.
      let pruned = prune now s in
      and_then (require_session_capacity now pruned) (λ _.
        and_then (raise_if (leb max_logins (count_where (λ _. true) pruned.logins)) capacity) (λ _.
          and_then
            (insert_login
              record {
                transaction_id = id;
                generation = gen;
                activation_epoch = epoch;
                state = state;
                challenge = challenge;
                redirect_uri = redirect_uri;
                nonce = nonce;
                expires_at_ms = now + login_ttl_ms;
              }
              pruned)
            (λ s'. ok (id, s')))))

unfoldable pub create_login :
    String → String → String → String → String → String → ℕ → Store → Result String × Store
create_login gen id state challenge redirect_uri nonce now s =
    commit s (create_login_work gen id state challenge redirect_uri nonce now s)

-- the WHERE clause of `claim_login`
abbrev pub claimable : String → String → ℕ → ℕ → Login → Bool
claimable id gen epoch now l =
    has_transaction id l
    && (l.generation == gen)
    && nat_eq l.activation_epoch epoch
    && ltb now l.expires_at_ms

abbrev pub drop_login : String → Store → Store
drop_login id s = record s { logins = delete_where (has_transaction id) s.logins }

-- the rest of `claim_login` on the row that it found
abbrev pub claim_found :
    String → String → String → ℕ → Store → Option Login → Result (LoginTransaction × Store)
claim_found id state challenge epoch s none = err invalid_login
claim_found id state challenge epoch s (some l) =
    and_then (compare_digest l.state state) (λ valid_state.
      and_then (compare_digest l.challenge challenge) (λ valid_challenge.
        if valid_state && valid_challenge
        then ok (
          record { activation_epoch = epoch; redirect_uri = l.redirect_uri; nonce = l.nonce },
          drop_login id s,
        )
        else err invalid_login))

unfoldable pub claim_login_work :
    String → String → String → String → ℕ → Store → Result (LoginTransaction × Store)
claim_login_work gen id state challenge now s = and_then (require_generation gen s) (λ epoch.
    and_then (require_session_capacity now s) (λ _.
      claim_found id state challenge epoch s (find_where (claimable id gen epoch now) s.logins)))

unfoldable pub claim_login :
    String → String → String → String → ℕ → Store → Result LoginTransaction × Store
claim_login gen id state challenge now s = commit s (claim_login_work gen id state challenge now s)

unfoldable pub cancel_login : String → String → Store → Store
cancel_login gen id s = record s {
  logins = delete_where (λ (l : Login). has_transaction id l && (l.generation == gen)) s.logins;
}

abbrev pub has_key : String → Session → Bool
has_key key x = x.key_id == key

abbrev pub belongs_to : String → Session → Bool
belongs_to principal x = x.principal_id == principal

-- INSERT INTO human_auth_sessions
unfoldable pub insert_session : Session → Store → Result Store
insert_session x s =
    if is_some (find_where (has_key x.key_id) s.sessions)
    then err duplicate_key
    else ok record s { sessions = x ∷ s.sessions }

-- the caps that `issue` checks on the pruned table
unfoldable pub assert_issuable : String → Store → Result (Unit {0})
assert_issuable principal s =
    raise_if
      (leb max_sessions (count_where (λ _. true) s.sessions)
        || leb max_personal (count_where (belongs_to principal) s.sessions))
      capacity

unfoldable pub revoke : String → Store → Store
revoke key s = record s { sessions = update_where (has_key key) set_revoked s.sessions }

-- the WHERE clause of `authenticate`
abbrev pub is_live : String → String → ℕ → Session → Bool
is_live gen key now x =
    has_key key x && (x.generation == gen) && ltb now x.expires_at_ms && not x.revoked

-- the digest that the secret is compared with
abbrev pub expected_digest : (String → String) → Option Session → String
expected_digest sha256 none = sha256 "human-session:unknown"
expected_digest sha256 (some x) = x.secret_digest

module _ {Grants : Type 0} (sha256 : String → String) where
  -- `key_id` and `secret` are the random texts
  unfoldable pub issue_work :
      (Grants → String)
      → String
      → String
      → String
      → ℕ
      → String
      → Grants
      → ℕ
      → Store
      → Result (IssuedSession × Store)
  issue_work dump_json gen key_id secret epoch principal grants now s =
      and_then (require_generation gen s) (λ current.
        and_then (raise_if (not (nat_eq current epoch)) invalid_login) (λ _.
          let pruned = prune now s in
          and_then (assert_issuable principal pruned) (λ _.
            and_then
              (insert_session
                record {
                  key_id = key_id;
                  generation = gen;
                  principal_id = principal;
                  secret_digest = sha256 secret;
                  grants = dump_json grants;
                  expires_at_ms = now + session_ttl_ms;
                  revoked = false;
                }
                pruned)
              (λ s'. ok (
                record {
                  token = "mrh_" ++ key_id ++ "_" ++ secret;
                  key_id = key_id;
                  expires_at = (now + session_ttl_ms) / 1000;
                },
                s',
              )))))

  unfoldable pub issue :
      (Grants → String)
      → String
      → String
      → String
      → ℕ
      → String
      → Grants
      → ℕ
      → Store
      → Result IssuedSession × Store
  issue dump_json gen key_id secret epoch principal grants now s =
      commit s (issue_work dump_json gen key_id secret epoch principal grants now s)

  abbrev pub answer :
      (String → Result Grants) → Option Session → Bool → Result (Option (StoredSession Grants))
  answer validate_json (some x) true =
      and_then (validate_json x.grants)
        (λ g. ok (some record { principal_id = x.principal_id; key_id = x.key_id; grants = g }))
  answer validate_json _ _ = ok none

  unfoldable pub authenticate :
      (String → Result Grants)
      → String
      → String
      → String
      → ℕ
      → Store
      → Result (Option (StoredSession Grants))
  authenticate validate_json gen key_id secret now s = and_then (require_generation gen s) (λ _.
      let row = find_where (is_live gen key_id now) s.sessions in
      and_then (compare_digest (sha256 secret) (expected_digest sha256 row))
        (answer validate_json row))
