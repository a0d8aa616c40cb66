-- ===== src/Sessions/Laws.antt =====
-- What a claim, a revocation and an activation promise (memory_router/human_auth_store.py).
use hindsight_memory_router.Sessions.{
  claim_login_work, Store, Login, StoredSession, LoginTransaction, commit, claim_login, claim_found,
  claimable, require_generation, require_session_capacity, compare_digest, authenticate, activate,
  revoke, prune, is_live, has_key, set_revoked, expected_digest, drop_login,
}
use hindsight_memory_router.Common.{
  arith, ◌≡◌, ◌≢◌, refl, ℕ, String, Bool, true, false, Option, none, some, List, [], ◌∷◌, ok,
  Result, inl, inr, Result-cases,
}
use hindsight_memory_router.Common.Table.{find_where, update_where, delete_where}

-- a test that no row meets finds none
pub find_where-refused {ℓ} :
    {A : Type ℓ} (p : A → Bool) (xs : List A) → ((x : A) → p x ≡ false) → find_where p xs ≡ none
unfolding find_where
find_where-refused p [] h = refl
find_where-refused p (x ∷ xs) h = ground (arith, h x, find_where-refused p xs h)

-- a test that the UPDATE makes fail on the rows that it meets, and that implies its WHERE clause
pub find_where-updated_away {ℓ} :
    {A : Type ℓ} (p q : A → Bool) (f : A → A) (xs : List A)
    → ((x : A) → q (f x) ≡ false)
    → ((x : A) → p x ≡ false → q x ≡ false)
    → find_where q (update_where p f xs) ≡ none
unfolding find_where update_where
find_where-updated_away p q f [] h k = refl
find_where-updated_away p q f (x ∷ xs) h k =
    ground (arith, h x, k x, find_where-updated_away p q f xs h k)

pub delete_where-updated_away {ℓ} :
    {A : Type ℓ} (p q r : A → Bool) (f : A → A) (xs : List A)
    → ((x : A) → q (f x) ≡ false)
    → ((x : A) → p x ≡ true)
    → find_where q (delete_where r (update_where p f xs)) ≡ none
unfolding find_where update_where delete_where
delete_where-updated_away p q r f [] h k = refl
delete_where-updated_away p q r f (x ∷ xs) h k =
    ground (arith, h x, k x, delete_where-updated_away p q r f xs h k)

module _ {Grants : Type 0} (sha256 : String → String) (validate_json : String → Result Grants) where
  -- a key of which no live row is found lets nobody in
  pub authenticate_absent :
      (gen key secret : String) (now : ℕ) (s : Store) (x : StoredSession Grants)
      → find_where (is_live gen key now) s.sessions ≡ none
      → authenticate sha256 validate_json gen key secret now s ≢ ok (some x)
  unfolding authenticate
  authenticate_absent gen key secret now s x h e = elim (Result-cases (require_generation gen s)) [
    | inr (x', q) ↦ ground arith
    | inl (epoch, q) ↦
        elim (Result-cases (
          compare_digest (sha256 secret)
            (expected_digest sha256 (find_where (is_live gen key now) s.sessions)))) [
              | inr (x', r) ↦ ground arith
              | inl (b, r) ↦ ground arith
            ]
  ]

  -- A key that was revoked authenticates nobody, under any generation, secret and time.
  pub authenticate-revoke :
      (gen key secret : String) (now : ℕ) (s : Store) (x : StoredSession Grants)
      → authenticate sha256 validate_json gen key secret now (revoke key s) ≢ ok (some x)
  unfolding revoke
  authenticate-revoke gen key secret now s x =
      authenticate_absent gen key secret now (revoke key s) x (
        find_where-updated_away (has_key key) (is_live gen key now) set_revoked s.sessions
          (λ y. ground arith) (λ y h. ground arith))

  -- After an activation no session that was issued before authenticates, under any generation,
  -- key, secret and time.
  pub authenticate-activate :
      (g gen key secret : String) (at now : ℕ) (s : Store) (x : StoredSession Grants)
      → authenticate sha256 validate_json gen key secret now (activate g at s) ≢ ok (some x)
  unfolding activate prune
  authenticate-activate g gen key secret at now s x =
      authenticate_absent gen key secret now (activate g at s) x (
        delete_where-updated_away (λ _. true) (is_live gen key now) _ set_revoked s.sessions
          (λ y. ground arith) (λ y. refl))

-- of the rows that a DELETE leaves, none meets a narrower test
pub find_where-deleted {ℓ} :
    {A : Type ℓ} (p q : A → Bool) (xs : List A)
    → ((x : A) → p x ≡ false → q x ≡ false)
    → find_where q (delete_where p xs) ≡ none
unfolding find_where delete_where
find_where-deleted p q [] k = refl
find_where-deleted p q (x ∷ xs) k = ground (arith, k x, find_where-deleted p q xs k)

-- a claim of which no row is found fails
pub claim_login_absent :
    (gen id state challenge : String) (now : ℕ) (s s' : Store) (l : LoginTransaction)
    → ((epoch : ℕ) → find_where (claimable id gen epoch now) s.logins ≡ none)
    → claim_login gen id state challenge now s ≢ (ok l, s')
unfolding claim_login claim_login_work
claim_login_absent gen id state challenge now s s' l h e =
    elim (Result-cases (require_generation gen s)) [
      | inr (x, q) ↦ ground arith
      | inl (epoch, q) ↦ elim (Result-cases (require_session_capacity now s)) [
        | inr (x, r) ↦ ground arith
        | inl (tt, r) ↦ ground (arith, h epoch)
      ]
    ]

-- the row that a claim found is removed when it succeeds
claim_found_done :
    (id state challenge : String) (epoch : ℕ) (s s' : Store) (l : LoginTransaction)
    (row : Option Login)
    → commit s (claim_found id state challenge epoch s row) ≡ (ok l, s')
    → s' ≡ drop_login id s
claim_found_done id state challenge epoch s s' l none e = absurd (ground arith)
claim_found_done id state challenge epoch s s' l (some r) e =
    elim (Result-cases (compare_digest r.state state)) [
      | inr (x, q) ↦ absurd (ground arith)
      | inl (a, q) ↦ elim (Result-cases (compare_digest r.challenge challenge)) [
        | inr (x, t) ↦ absurd (ground arith)
        | inl (b, t) ↦ ground arith
      ]
    ]

-- a claim that succeeds has removed the login
pub claim_login_done :
    (gen id state challenge : String) (now : ℕ) (s s' : Store) (l : LoginTransaction)
    → claim_login gen id state challenge now s ≡ (ok l, s')
    → s' ≡ drop_login id s
unfolding claim_login claim_login_work
claim_login_done gen id state challenge now s s' l e =
    elim (Result-cases (require_generation gen s)) [
      | inr (x, q) ↦ absurd (ground arith)
      | inl (epoch, q) ↦ elim (Result-cases (require_session_capacity now s)) [
        | inr (x, r) ↦ absurd (ground arith)
        | inl (tt, r) ↦
            claim_found_done id state challenge epoch s s' l
              (find_where (claimable id gen epoch now) s.logins) (ground arith)
      ]
    ]
