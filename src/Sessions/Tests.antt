-- ===== src/Sessions/Tests.antt =====
-- Logins and sessions on a concrete store, and the theorems at it.
use hindsight_memory_router.Sessions.Laws.{authenticate-revoke, authenticate-activate}
use hindsight_memory_router.Sessions.Schedules.{run_all-IsCapped}
use hindsight_memory_router.Sessions.Once.{claim_login_once}
use hindsight_memory_router.Sessions.Caps.{
  Command, IsCapped, run_all, never_creates, pruning, creating, issuing, revoking, cancelling,
}
use hindsight_memory_router.Sessions.{
  Store, Login, Session, LoginTransaction, StoredSession, claim_login, claim_login_work,
  require_generation, require_session_capacity, compare_digest, authenticate, revoke, activate,
}
use hindsight_memory_router.Common.{
  arith, ◌≡◌, ◌≢◌, refl, String, true, false, some, List, [], ◌∷◌, ok,
}
use hindsight_memory_router.Common.Table.{find_where, delete_where, count_where}

abbrev login : Login
login = record {
  transaction_id = "t";
  generation = "g";
  activation_epoch = 1;
  state = "state";
  challenge = "challenge";
  redirect_uri = "http://127.0.0.1/callback";
  nonce = "nonce";
  expires_at_ms = 300000;
}

abbrev waiting : Store
waiting = record {
  policy = some record { generation = "g"; activation_epoch = 1 };
  logins = login ∷ [];
  sessions = [];
}

abbrev claimed : LoginTransaction
claimed = record {
  activation_epoch = 1;
  redirect_uri = "http://127.0.0.1/callback";
  nonce = "nonce";
}

abbrev reviewer : Session
reviewer = record {
  key_id = "k";
  generation = "g";
  principal_id = "alice";
  secret_digest = "s";
  grants = "[]";
  expires_at_ms = 3600000;
  revoked = false;
}

abbrev signed_in : Store
signed_in = record waiting { sessions = reviewer ∷ [] }

abbrev hashed : String → String
hashed secret = secret

abbrev stored : StoredSession String
stored = record { principal_id = "alice"; key_id = "k"; grants = "[]" }

-- the claim of the login that waits
claim_waiting :
    claim_login "g" "t" "state" "challenge" 5 waiting ≡ (ok claimed, record waiting { logins = [] })
unfolding claim_login claim_login_work require_generation require_session_capacity compare_digest
    find_where delete_where count_where
claim_waiting = refl

-- a session authenticates as long as it is not revoked
authenticate-signed_in :
    authenticate hashed (λ grants. ok grants) "g" "k" "s" 5 signed_in ≡ ok (some stored)
unfolding authenticate require_generation compare_digest find_where
authenticate-signed_in = refl

abbrev afterwards : List (Command String)
afterwards =
    cancelling "g" "other"
    ∷ issuing "g" "k" "s" 1 "alice" "[]" 10
    ∷ creating "g" "u" "state" "challenge" "http://127.0.0.1/callback" "nonce" 20
    ∷ revoking "k"
    ∷ pruning 30
    ∷ []

afterwards-never_creates : never_creates "t" afterwards ≡ true
unfolding never_creates
afterwards-never_creates = refl

claim_login_once_example :
    claim_login "g" "t" "state" "challenge" 6
      (run_all hashed (λ grants. grants) afterwards record waiting { logins = [] })
    ≢ (ok claimed, waiting)
claim_login_once_example =
    claim_login_once hashed (λ grants. grants) "g" "t" "state" "challenge" 5 waiting
      record waiting { logins = [] } claimed afterwards "g" "state" "challenge" 6 waiting claimed
      claim_waiting afterwards-never_creates

waiting-IsCapped : IsCapped waiting
unfolding count_where
waiting-IsCapped = (omega arith, omega arith, λ p. omega arith)

run_all-IsCapped_example : IsCapped (run_all hashed (λ grants. grants) afterwards waiting)
run_all-IsCapped_example =
    run_all-IsCapped hashed (λ grants. grants) afterwards waiting waiting-IsCapped

authenticate-revoke_example :
    authenticate hashed (λ grants. ok grants) "g" "k" "s" 5 (revoke "k" signed_in)
    ≢ ok (some stored)
authenticate-revoke_example =
    authenticate-revoke hashed (λ grants. ok grants) "g" "k" "s" 5 signed_in stored

authenticate-activate_example :
    authenticate hashed (λ grants. ok grants) "h" "k" "s" 5 (activate "h" 4 signed_in)
    ≢ ok (some stored)
authenticate-activate_example =
    authenticate-activate hashed (λ grants. ok grants) "h" "h" "k" "s" 4 5 signed_in stored
