-- ===== src/Sessions/Schedules.antt =====
-- What holds after every schedule of operations on logins and sessions
-- (memory_router/human_auth_store.py).
use hindsight_memory_router.Common.Table.{update_where, count_where}
use hindsight_memory_router.Sessions.{
  activate_policy, Store, commit, claim_login, has_transaction, activate, revoke, has_key,
  set_revoked, issue, initialize, create_login, cancel_login, create_login_work, issue_work,
  initialize_work, claim_login_work,
}
use hindsight_memory_router.Common.{ap, sym, arith, ℕ, String, true, List, [], ◌∷◌}
use hindsight_memory_router.Sessions.Caps.{
  pruning, revoking, issuing, cancelling, claiming, creating, activating, initializing, Command,
  IsCapped, run, run_all, prune-IsCapped, commit-IsCapped, initialize_work-IsCapped,
  create_login_work-IsCapped, issue_work-IsCapped, drop_login-IsCapped, update-IsCapped,
}
use hindsight_memory_router.Sessions.Laws.{claim_login_done}
use mathlib.Core.Path.{subst}

claim_login-IsCapped :
    (gen id state challenge : String) (now : ℕ) (s : Store)
    → IsCapped s
    → IsCapped (claim_login gen id state challenge now s).1
unfolding claim_login
claim_login-IsCapped gen id state challenge now s h =
    commit-IsCapped s (claim_login_work gen id state challenge now s) h λ l s' e.
      subst IsCapped (sym (claim_login_done gen id state challenge now s s' l (ap (commit s) e)))
        (drop_login-IsCapped (has_transaction id) s h)

activate-IsCapped :
    (gen : String) (now : ℕ) (s : Store) → IsCapped s → IsCapped (activate gen now s)
unfolding activate count_where
activate-IsCapped gen now s (a, b, c) =
    let (_, b', c') = update-IsCapped (λ _. true) s (a, b, c) in
    prune-IsCapped now
      record {
        policy = activate_policy gen s.policy;
        logins = [];
        sessions = update_where (λ _. true) set_revoked s.sessions;
      }
      (omega arith, b', c')

module _ {Grants : Type 0} (sha256 : String → String) (dump_json : Grants → String) where
  run-IsCapped : (c : Command Grants) (s : Store) → IsCapped s → IsCapped (run sha256 dump_json c s)
  unfolding run initialize create_login issue cancel_login revoke
  run-IsCapped (initializing gen check) s h =
      commit-IsCapped s (initialize_work gen check s) h
        (λ u s'. initialize_work-IsCapped gen check s s' u h)
  run-IsCapped (activating gen now) s h = activate-IsCapped gen now s h
  run-IsCapped (creating gen id state challenge redirect nonce now) s h =
      commit-IsCapped s (create_login_work gen id state challenge redirect nonce now s) h
        (λ a s'. create_login_work-IsCapped gen id state challenge redirect nonce a now s s' h)
  run-IsCapped (claiming gen id state challenge now) s h =
      claim_login-IsCapped gen id state challenge now s h
  run-IsCapped (cancelling gen id) s h = drop_login-IsCapped _ s h
  run-IsCapped (issuing gen key secret epoch principal grants now) s h =
      commit-IsCapped s (issue_work sha256 dump_json gen key secret epoch principal grants now s) h
        (λ a s'.
          issue_work-IsCapped sha256 dump_json gen key secret epoch principal grants now a s s' h)
  run-IsCapped (revoking key) s h = update-IsCapped (has_key key) s h
  run-IsCapped (pruning now) s h = prune-IsCapped now s h

  -- In every schedule of operations, whether they return or raise, a store within the caps of 1000
  -- logins, 10000 sessions and 20 sessions of one principal stays within them.
  pub run_all-IsCapped :
      (cs : List (Command Grants)) (s : Store)
      → IsCapped s
      → IsCapped (run_all sha256 dump_json cs s)
  unfolding run_all
  run_all-IsCapped [] s h = h
  run_all-IsCapped (c ∷ cs) s h =
      run_all-IsCapped cs (run sha256 dump_json c s) (run-IsCapped c s h)
