-- ===== src/Sessions/Once.antt =====
-- A login is claimed at most once (memory_router/human_auth_store.py).
use hindsight_memory_router.Sessions.Caps.{
  pruning, revoking, issuing, cancelling, claiming, creating, activating, initializing, Command,
  run, run_all, creates, never_creates, create_login_work_done, issue_work_done,
}
use hindsight_memory_router.Common.{
  ◌==◌, ap, sym, arith, ◌≡◌, ◌≢◌, refl, ℕ, String, Bool, true, false, none, List, [], ◌∷◌, ok, err,
  Result, inl, inr, Result-cases,
}
use hindsight_memory_router.Sessions.Laws.{claim_login_absent, claim_login_done, find_where-deleted}
use hindsight_memory_router.Sessions.{
  Store, Login, LoginTransaction, commit, claim_login, has_transaction, activate, revoke, prune,
  issue, initialize, create_login, cancel_login, require_generation, create_login_work, issue_work,
  initialize_work, claim_login_work, or_policy,
}
use hindsight_memory_router.Common.Table.{find_where, delete_where}
use mathlib.Core.Path.{subst}

-- no login stands under this id
abbrev pub IsGone : String → Store → Type 0
IsGone id s = find_where (has_transaction id) s.logins ≡ none

find_where-delete_where :
    (p q : Login → Bool) (xs : List Login)
    → find_where p xs ≡ none
    → find_where p (delete_where q xs) ≡ none
unfolding find_where delete_where
find_where-delete_where p q [] h = refl
find_where-delete_where p q (x ∷ xs) h = ground (arith, find_where-delete_where p q xs)

narrow :
    (p q : Login → Bool) (xs : List Login)
    → find_where p xs ≡ none
    → ((x : Login) → p x ≡ false → q x ≡ false)
    → find_where q xs ≡ none
unfolding find_where
narrow p q [] h k = refl
narrow p q (x ∷ xs) h k = ground (arith, k x, narrow p q xs)

commit_keeps {ℓ} :
    {A : Type ℓ} (P : Store → Type 0) (s : Store) (r : Result (A × Store))
    → P s
    → ((a : A) (s' : Store) → r ≡ ok (a, s') → P s')
    → P (commit s r).1
commit_keeps P s (ok (a, s')) h k = k a s' refl
commit_keeps P s (err e) h k = h

prune-IsGone : (id : String) (now : ℕ) (s : Store) → IsGone id s → IsGone id (prune now s)
unfolding prune
prune-IsGone id now s h = find_where-delete_where (has_transaction id) _ s.logins h

initialize_work-IsGone :
    (id gen : String) (check : Bool) (s s' : Store) (u : Unit {0})
    → IsGone id s
    → initialize_work gen check s ≡ ok (u, s')
    → IsGone id s'
unfolding initialize_work
initialize_work-IsGone id gen false s s' u h e = ground arith
initialize_work-IsGone id gen true s s' u h e =
    elim (Result-cases (require_generation gen record s { policy = or_policy s.policy gen })) [
      | inr (x, q) ↦ absurd (ground arith)
      | inl (x, q) ↦ ground arith
    ]

create_login_work-IsGone :
    (id gen id' state challenge redirect nonce a : String) (now : ℕ) (s s' : Store)
    → (id' == id) ≡ false
    → IsGone id s
    → create_login_work gen id' state challenge redirect nonce now s ≡ ok (a, s')
    → IsGone id s'
unfolding find_where
create_login_work-IsGone id gen id' state challenge redirect nonce a now s s' d h e =
    let (l, q, eq, room) =
      create_login_work_done gen id' state challenge redirect nonce a now s s' e in
    subst (IsGone id) (sym eq) (ground (arith, prune-IsGone id now s h, q, d))

claim_login-IsGone :
    (id gen id' state challenge : String) (now : ℕ) (s : Store)
    → IsGone id s
    → IsGone id (claim_login gen id' state challenge now s).1
unfolding claim_login
claim_login-IsGone id gen id' state challenge now s h =
    commit_keeps (IsGone id) s (claim_login_work gen id' state challenge now s) h λ l s' e.
      subst (IsGone id)
        (sym (claim_login_done gen id' state challenge now s s' l (ap (commit s) e)))
        (find_where-delete_where (has_transaction id) (has_transaction id') s.logins h)

module _ {Grants : Type 0} (sha256 : String → String) (dump_json : Grants → String) where
  run-IsGone :
      (id : String) (c : Command Grants) (s : Store)
      → creates id c ≡ false
      → IsGone id s
      → IsGone id (run sha256 dump_json c s)
  unfolding find_where run initialize create_login issue cancel_login revoke activate
  run-IsGone id (initializing gen check) s d h =
      commit_keeps (IsGone id) s (initialize_work gen check s) h
        (λ u s'. initialize_work-IsGone id gen check s s' u h)
  run-IsGone id (activating gen now) s d h = prune-IsGone id now _ refl
  run-IsGone id (creating gen id' state challenge redirect nonce now) s d h =
      commit_keeps (IsGone id) s (create_login_work gen id' state challenge redirect nonce now s) h
        (λ a s'. create_login_work-IsGone id gen id' state challenge redirect nonce a now s s' d h)
  run-IsGone id (claiming gen id' state challenge now) s d h =
      claim_login-IsGone id gen id' state challenge now s h
  run-IsGone id (cancelling gen id') s d h =
      find_where-delete_where (has_transaction id) _ s.logins h
  run-IsGone id (issuing gen key secret epoch principal grants now) s d h =
      commit_keeps (IsGone id) s
        (issue_work sha256 dump_json gen key secret epoch principal grants now s) h
        (λ a s' e.
          let (x, eq, room) =
            issue_work_done sha256 dump_json gen key secret epoch principal grants now a s s' e in
          subst (IsGone id) (sym eq) (prune-IsGone id now s h))
  run-IsGone id (revoking key) s d h = h
  run-IsGone id (pruning now) s d h = prune-IsGone id now s h

  run_all-IsGone :
      (id : String) (cs : List (Command Grants)) (s : Store)
      → never_creates id cs ≡ true
      → IsGone id s
      → IsGone id (run_all sha256 dump_json cs s)
  unfolding run_all never_creates
  run_all-IsGone id [] s d h = h
  run_all-IsGone id (c ∷ cs) s d h =
      run_all-IsGone id cs (run sha256 dump_json c s) (ground arith)
        (run-IsGone id c s (ground arith) h)

  -- A login that was claimed is never claimed again: after every schedule of operations that
  -- creates no login under the same id, a claim of it raises, under any generation, state,
  -- challenge and time.
  pub claim_login_once :
      (gen id state challenge : String) (now : ℕ) (s s1 : Store) (l : LoginTransaction)
      (cs : List (Command Grants)) (gen' state' challenge' : String) (now' : ℕ) (s2 : Store)
      (l' : LoginTransaction)
      → claim_login gen id state challenge now s ≡ (ok l, s1)
      → never_creates id cs ≡ true
      → claim_login gen' id state' challenge' now' (run_all sha256 dump_json cs s1) ≢ (ok l', s2)
  claim_login_once gen id state challenge now s s1 l cs gen' state' challenge' now' s2 l' h d =
      let first : IsGone id s1 =
        subst (IsGone id) (sym (claim_login_done gen id state challenge now s s1 l h))
          (find_where-deleted (has_transaction id) (has_transaction id) s.logins (λ x h. h)) in
      claim_login_absent gen' id state' challenge' now' (run_all sha256 dump_json cs s1) s2 l'
        (λ epoch.
          narrow (has_transaction id) _ _ (run_all-IsGone id cs s1 d first) (λ x k. ground arith))
