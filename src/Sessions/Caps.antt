-- ===== src/Sessions/Caps.antt =====
-- Schedules of the operations on logins and sessions (memory_router/human_auth_store.py), and what
-- holds after every one of them.
use hindsight_memory_router.Sessions.{
  issue_work, initialize_work, create_login_work, or_policy, Store, Login, Session, IssuedSession,
  commit, claim_login, has_transaction, require_generation, require_session_capacity, activate,
  revoke, prune, has_key, set_revoked, issue, initialize, create_login, cancel_login,
  insert_session, insert_login, assert_issuable, belongs_to, max_logins, max_sessions, max_personal,
  session_ttl_ms, login_ttl_ms, capacity,
}
use hindsight_memory_router.Common.{
  sym, arith, ◌≡◌, refl, ℕ, String, Bool, true, false, List, [], ◌∷◌, ok, err, Result, inl, inr,
  Result-cases, Option-cases, ◌≤◌, ◌+◌, eq_iff, raise_if, leb, not, ◌==◌, ◌&&◌,
}
use mathlib.Core.Path.{subst}
use hindsight_memory_router.Common.Table.{find_where, update_where, delete_where, count_where}
use hindsight_memory_router.Common.Table.Laws.{count_where-delete_where, count_where-update_where}

pub data Command (Grants : Type 0) : Type 0 where
  initializing : (gen : String) (check_generation : Bool) → Command Grants
  activating : (gen : String) (now : ℕ) → Command Grants
  creating : (gen id state challenge redirect_uri nonce : String) (now : ℕ) → Command Grants
  claiming : (gen id state challenge : String) (now : ℕ) → Command Grants
  cancelling : (gen id : String) → Command Grants
  issuing :
      (gen key_id secret : String) (epoch : ℕ) (principal : String) (grants : Grants) (now : ℕ)
      → Command Grants
  revoking : (key_id : String) → Command Grants
  pruning : (now : ℕ) → Command Grants

-- the bounds of the code: 1000 logins, 10000 sessions, 20 of one principal
abbrev pub IsCapped : Store → Type 0
IsCapped s =
    (count_where (λ (l : Login). true) s.logins ≤ max_logins)
    × (count_where (λ (x : Session). true) s.sessions ≤ max_sessions)
    × ((p : String) → count_where (belongs_to p) s.sessions ≤ max_personal)

-- whether a command creates a login under this id
abbrev pub creates : {Grants : Type 0} → String → Command Grants → Bool
creates id (creating gen id' state challenge redirect_uri nonce now) = id' == id
creates id _ = false

unfoldable pub never_creates : {Grants : Type 0} → String → List (Command Grants) → Bool
never_creates id [] = true
never_creates id (c ∷ cs) = not (creates id c) && never_creates id cs

module _ {Grants : Type 0} (sha256 : String → String) (dump_json : Grants → String) where
  -- the state after one command, whether it returns or raises
  unfoldable pub run : Command Grants → Store → Store
  run (initializing gen check_generation) s = (initialize gen check_generation s).1
  run (activating gen now) s = activate gen now s
  run (creating gen id state challenge redirect_uri nonce now) s =
      (create_login gen id state challenge redirect_uri nonce now s).1
  run (claiming gen id state challenge now) s = (claim_login gen id state challenge now s).1
  run (cancelling gen id) s = cancel_login gen id s
  run (issuing gen key_id secret epoch principal grants now) s =
      (issue sha256 dump_json gen key_id secret epoch principal grants now s).1
  run (revoking key_id) s = revoke key_id s
  run (pruning now) s = prune now s

  unfoldable pub run_all : List (Command Grants) → Store → Store
  run_all [] s = s
  run_all (c ∷ cs) s = run_all cs (run c s)

pub prune-IsCapped : (now : ℕ) (s : Store) → IsCapped s → IsCapped (prune now s)
unfolding prune
prune-IsCapped now s (a, b, c) = (
  omega (
    arith,
    count_where-delete_where (λ _. true) (λ (l : Login). leb l.expires_at_ms now) s.logins,
  ),
  omega (
    arith,
    count_where-delete_where (λ _. true) (λ (x : Session). leb x.expires_at_ms now) s.sessions,
  ),
  λ p. omega (
    arith,
    c p,
    count_where-delete_where (belongs_to p) (λ (x : Session). leb x.expires_at_ms now) s.sessions,
  ),
)

-- a raise keeps the state
pub commit-IsCapped {ℓ} :
    {A : Type ℓ} (s : Store) (r : Result (A × Store))
    → IsCapped s
    → ((a : A) (s' : Store) → r ≡ ok (a, s') → IsCapped s')
    → IsCapped (commit s r).1
commit-IsCapped s (ok (a, s')) h k = k a s' refl
commit-IsCapped s (err e) h k = h

insert_login_done :
    (l : Login) (s s' : Store) → insert_login l s ≡ ok s' → s' ≡ record s { logins = l ∷ s.logins }
unfolding insert_login
insert_login_done l s s' e =
    elim (Option-cases (find_where (has_transaction l.transaction_id) s.logins)) [
      | inr (x, q) ↦ absurd (ground arith)
      | inl q ↦ ground arith
    ]

insert_session_done :
    (x : Session) (s s' : Store)
    → insert_session x s ≡ ok s'
    → s' ≡ record s { sessions = x ∷ s.sessions }
unfolding insert_session
insert_session_done x s s' e = elim (Option-cases (find_where (has_key x.key_id) s.sessions)) [
  | inr (y, q) ↦ absurd (ground arith)
  | inl q ↦ ground arith
]

add_login-IsCapped :
    (l : Login) (s : Store)
    → IsCapped s
    → raise_if (leb max_logins (count_where (λ (l : Login). true) s.logins)) capacity ≡ ok tt
    → IsCapped (record s { logins = l ∷ s.logins })
unfolding count_where
add_login-IsCapped l s (a, b, c) h = (ground arith, b, c)

-- the caps that were checked leave room for one more of that principal
add_session-IsCapped :
    (x : Session) (s : Store)
    → IsCapped s
    → assert_issuable x.principal_id s ≡ ok tt
    → IsCapped (record s { sessions = x ∷ s.sessions })
unfolding assert_issuable count_where
add_session-IsCapped x s (a, b, c) h =
    (a, ground arith, λ p. ground (arith, c p, eq_iff x.principal_id p))

pub initialize_work-IsCapped :
    (gen : String) (check : Bool) (s s' : Store) (u : Unit {0})
    → IsCapped s
    → initialize_work gen check s ≡ ok (u, s')
    → IsCapped s'
unfolding initialize_work
initialize_work-IsCapped gen false s s' u (a, b, c) e =
    (ground arith, ground arith, λ p. ground (arith, c p))
initialize_work-IsCapped gen true s s' u (a, b, c) e =
    elim (Result-cases (require_generation gen record s { policy = or_policy s.policy gen })) [
      | inr (x, q) ↦ absurd (ground arith)
      | inl (x, q) ↦ (ground arith, ground arith, λ p. ground (arith, c p))
    ]

-- a login that is created stands in front of the pruned ones
pub create_login_work_done :
    (gen id state challenge redirect nonce a : String) (now : ℕ) (s s' : Store)
    → create_login_work gen id state challenge redirect nonce now s ≡ ok (a, s')
    → (l : Login) × (l.transaction_id ≡ id)
      × (s' ≡ record (prune now s) { logins = l ∷ (prune now s).logins })
      × (raise_if (leb max_logins (count_where (λ (l : Login). true) (prune now s).logins)) capacity
          ≡ ok tt)
unfolding create_login_work
create_login_work_done gen id state challenge redirect nonce a now s s' e =
    elim (Result-cases (require_generation gen s)) [
      | inr (x, q) ↦ absurd (ground arith)
      | inl (epoch, q) ↦
          let row : Login = record {
            transaction_id = id;
            generation = gen;
            activation_epoch = epoch;
            state = state;
            challenge = challenge;
            redirect_uri = redirect;
            nonce = nonce;
            expires_at_ms = now + login_ttl_ms;
          } in
          elim (Result-cases (require_session_capacity now (prune now s))) [
            | inr (x, r) ↦ absurd (ground arith)
            | inl (tt, r) ↦ elim (Result-cases (insert_login row (prune now s))) [
              | inr (x, w) ↦ absurd (ground arith)
              | inl (s2, w) ↦ (
                row,
                refl,
                ground (arith, insert_login_done row (prune now s) s2 w),
                ground arith,
              )
            ]
          ]
    ]

pub create_login_work-IsCapped :
    (gen id state challenge redirect nonce a : String) (now : ℕ) (s s' : Store)
    → IsCapped s
    → create_login_work gen id state challenge redirect nonce now s ≡ ok (a, s')
    → IsCapped s'
create_login_work-IsCapped gen id state challenge redirect nonce a now s s' h e =
    let (l, q, eq, room) =
      create_login_work_done gen id state challenge redirect nonce a now s s' e in
    subst IsCapped (sym eq) (add_login-IsCapped l (prune now s) (prune-IsCapped now s h) room)

module _ {Grants : Type 0} (sha256 : String → String) (dump_json : Grants → String) where
  -- a session that is issued stands in front of the pruned ones
  pub issue_work_done :
      (gen key secret : String) (epoch : ℕ) (principal : String) (grants : Grants) (now : ℕ)
      (a : IssuedSession) (s s' : Store)
      → issue_work sha256 dump_json gen key secret epoch principal grants now s ≡ ok (a, s')
      → (x : Session) × (s' ≡ record (prune now s) { sessions = x ∷ (prune now s).sessions })
        × (assert_issuable x.principal_id (prune now s) ≡ ok tt)
  unfolding issue_work
  issue_work_done gen key secret epoch principal grants now a s s' e =
      let row : Session = record {
        key_id = key;
        generation = gen;
        principal_id = principal;
        secret_digest = sha256 secret;
        grants = dump_json grants;
        expires_at_ms = now + session_ttl_ms;
        revoked = false;
      } in
      elim (Result-cases (require_generation gen s)) [
        | inr (x, q) ↦ absurd (ground arith)
        | inl (current, q) ↦ elim (Result-cases (assert_issuable principal (prune now s))) [
          | inr (x, r) ↦ absurd (ground arith)
          | inl (tt, r) ↦ elim (Result-cases (insert_session row (prune now s))) [
            | inr (x, w) ↦ absurd (ground arith)
            | inl (s2, w) ↦ (row, ground (arith, insert_session_done row (prune now s) s2 w), r)
          ]
        ]
      ]

  pub issue_work-IsCapped :
      (gen key secret : String) (epoch : ℕ) (principal : String) (grants : Grants) (now : ℕ)
      (a : IssuedSession) (s s' : Store)
      → IsCapped s
      → issue_work sha256 dump_json gen key secret epoch principal grants now s ≡ ok (a, s')
      → IsCapped s'
  issue_work-IsCapped gen key secret epoch principal grants now a s s' h e =
      let (x, eq, room) = issue_work_done gen key secret epoch principal grants now a s s' e in
      subst IsCapped (sym eq) (add_session-IsCapped x (prune now s) (prune-IsCapped now s h) room)

pub drop_login-IsCapped :
    (p : Login → Bool) (s : Store)
    → IsCapped s
    → IsCapped (record s { logins = delete_where p s.logins })
drop_login-IsCapped p s (a, b, c) =
    (omega (arith, count_where-delete_where (λ _. true) p s.logins), b, c)

pub update-IsCapped :
    (p : Session → Bool) (s : Store)
    → IsCapped s
    → IsCapped (record s { sessions = update_where p set_revoked s.sessions })
update-IsCapped p s (a, b, c) = (
  a,
  ground (arith, count_where-update_where (λ _. true) p set_revoked s.sessions (λ x. refl)),
  λ q.
      ground
        (arith, c q, count_where-update_where (belongs_to q) p set_revoked s.sessions (λ x. refl)),
)
