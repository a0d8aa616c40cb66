-- ===== src/Application/Monitor.antt =====
-- The service of the administration is asked only with the token of the call's own scope, or for the
-- banks that an authenticated principal may review (memory_router/app.py): a service that checks this
-- itself changes nothing.
use hindsight_memory_router.Common.{
  Result-cases, arith, ◌≡◌, refl, ap, inl, inr, ◌⊎◌, Bool-cases, String, Bool, true, false, Option,
  none, some, List, opt_eq_iff, is_some, Result,
}
use hindsight_memory_router.Principals.{PrincipalRegistry, PrincipalSession}
use hindsight_memory_router.Application.Routes.{
  last_value, scoped_banks, is_metadata, AdminService, AdminCall, scope_of, admin_call, run_call,
  answer_metadata, answer_admin, answer_known, answer_stranger, dispatch_admin, is_principal, queue,
  stats, cleanup, not_found, read_item, other_item, act, approve, reject, postpone, reconcile,
}
use hindsight_memory_router.Dispatch.Monitor.{all_authorized}
use hindsight_memory_router.Application.{
  ok, HttpRequest, Runtime, admin_auth, admin_rate, authenticate_principal,
}
use hindsight_memory_router.Common.Action.{Act-cases, bind-ext, ◌>>=◌}
use hindsight_memory_router.Json.{}
use hindsight_memory_router.Tokens.{admin_token_scope, admin_authorized}
use hindsight_memory_router.Application.Banks.{scoped_banks-all_authorized}
use hindsight_memory_router.Application.Gates.{
  gated, bears, bears_as, may_review, may_review-holds, monitored,
}
use hindsight_memory_router.Application.Scopes.{needed, admin_call-IsScoped}

module _ {W : Type 0} (runtime : Runtime W) (decode : String → Result String)
    (service : AdminService W) (http : HttpRequest) (scoped : List String → Bool) where
  abbrev guarded : AdminService W
  guarded = monitored runtime.admin_tokens http.authorization scoped service

  -- the slot is the one of the scope that the call needs
  abbrev IsHeld : String → AdminCall → Type 0
  IsHeld slot call =
      (needed call ≡ none)
      ⊎ ((scope : String) × (needed call ≡ some scope)
          × (admin_token_scope http.authorization scope runtime.admin_tokens ≡ some slot))

  held :
      (slot scope : String) (call : AdminCall)
      → needed call ≡ some scope
      → IsHeld slot call
      → admin_token_scope http.authorization scope runtime.admin_tokens ≡ some slot
  held slot scope call n (inl e) = absurd (ground arith)
  held slot scope call n (inr (s, e, t)) = ground arith

  -- the gates of what the request may read and decide
  abbrev reading : Bool → AdminService W
  reading c = gated c scoped (λ x. true) (λ x. true) service

  abbrev reviewing : Bool → AdminService W
  reviewing c = gated true scoped (λ x. c) (λ x. true) service

  held_to_read :
      (slot : String) (call : AdminCall)
      → needed call ≡ some "read"
      → IsHeld slot call
      → bears runtime.admin_tokens http.authorization "read" ≡ true
  held_to_read slot call n h = ap is_some (held slot "read" call n h)

  held_as :
      (slot scope : String) (call : AdminCall)
      → needed call ≡ some scope
      → IsHeld slot call
      → bears_as runtime.admin_tokens http.authorization scope slot ≡ true
  held_as slot scope call n h = (opt_eq_iff _ (some slot)).1 (held slot scope call n h)

  run_call-monitored :
      (slot : String) (call : AdminCall) (s : W)
      → IsHeld slot call
      → run_call runtime decode guarded http slot call s
        ≡ run_call runtime decode service http slot call s
  unfolding run_call
  run_call-monitored slot queue s h =
      ap (λ c. run_call runtime decode (reading c) http slot queue s)
        (held_to_read slot queue refl h)
  run_call-monitored slot stats s h =
      ap (λ c. run_call runtime decode (reading c) http slot stats s)
        (held_to_read slot stats refl h)
  run_call-monitored slot (read_item segment) s h =
      ap (λ c. run_call runtime decode (reading c) http slot (read_item segment) s)
        (held_to_read slot (read_item segment) refl h)
  run_call-monitored slot cleanup s h =
      ap
        (λ c.
          run_call runtime decode (gated true scoped (λ x. true) (λ x. c) service) http slot cleanup
            s)
        (held_as slot "cleanup" cleanup refl h)
  run_call-monitored slot (act approve segment) s h =
      ap (λ c. run_call runtime decode (reviewing c) http slot (act approve segment) s)
        (held_as slot "review" (act approve segment) refl h)
  run_call-monitored slot (act reject segment) s h =
      ap (λ c. run_call runtime decode (reviewing c) http slot (act reject segment) s)
        (held_as slot "review" (act reject segment) refl h)
  run_call-monitored slot (act postpone segment) s h =
      ap (λ c. run_call runtime decode (reviewing c) http slot (act postpone segment) s)
        (held_as slot "review" (act postpone segment) refl h)
  run_call-monitored slot (act reconcile segment) s h =
      ap (λ c. run_call runtime decode (reviewing c) http slot (act reconcile segment) s)
        (held_as slot "review" (act reconcile segment) refl h)
  run_call-monitored slot (other_item segment) s h = refl
  run_call-monitored slot not_found s h = refl

  answer_admin-monitored :
      (found : Option String) (s : W)
      → admin_token_scope http.authorization
          (scope_of http.method http.pathname)
          runtime.admin_tokens
        ≡ found
      → answer_admin runtime decode guarded http found s
        ≡ answer_admin runtime decode service http found s
  unfolding answer_admin
  answer_admin-monitored none s t = refl
  answer_admin-monitored (some slot) s t =
      let call = admin_call http.method http.pathname in
      let is_held : IsHeld slot call = elim (admin_call-IsScoped http.method http.pathname) [
        | inl n ↦ inl n
        | inr n ↦ inr (scope_of http.method http.pathname, n, t)
      ] in
      elim (Act-cases (admin_rate runtime http.method s)) [
        | inl (u, w, q) ↦ ground (arith, run_call-monitored slot call w is_held)
        | inr (e, w, q) ↦ ground arith
      ]

  answer_known-monitored :
      (known : Bool) (s : W)
      → answer_known runtime decode guarded http (scope_of http.method http.pathname) known s
        ≡ answer_known runtime decode service http (scope_of http.method http.pathname) known s
  answer_known-monitored true s = answer_admin-monitored _ s refl
  answer_known-monitored false s = refl

  answer_metadata-nobody :
      (registry : PrincipalRegistry) (s : W)
      → answer_metadata runtime decode guarded registry http none s
        ≡ answer_metadata runtime decode service registry http none s
  unfolding answer_metadata
  answer_metadata-nobody registry s = refl

  answer_metadata-monitored :
      (registry : PrincipalRegistry) (session : PrincipalSession) (s : W)
      → ((banks : List String)
          → all_authorized registry session "quarantine.review" banks ≡ true
          → scoped banks ≡ true)
      → answer_metadata runtime decode guarded registry http (some session) s
        ≡ answer_metadata runtime decode service registry http (some session) s
  unfolding answer_metadata
  answer_metadata-monitored registry session s h =
      elim (Bool-cases (is_metadata runtime decode service http)) [
        | inr q ↦ rw q refl
        | inl q ↦
            elim (Result-cases (
              scoped_banks runtime decode service registry session
                (last_value "bank_id" http.query))) [
                  | inr (e, b) ↦ rw (q, b) refl
                  | inl (banks, b) ↦
                      let allowed = h banks (
                        scoped_banks-all_authorized runtime decode service registry session
                          (last_value "bank_id" http.query) banks b) in
                      rw (q, b) (rw allowed refl)
                ]
      ]

  by_token :
      (s : W)
      → (admin_auth runtime http (scope_of http.method http.pathname)
            >>= answer_known runtime decode guarded http (scope_of http.method http.pathname))
          s
        ≡ (admin_auth runtime http (scope_of http.method http.pathname)
              >>= answer_known runtime decode service http (scope_of http.method http.pathname))
            s
  by_token s =
      let scope = scope_of http.method http.pathname in
      bind-ext (admin_auth runtime http scope) (answer_known runtime decode guarded http scope)
        (answer_known runtime decode service http scope) answer_known-monitored s

  answer_stranger-monitored :
      (resolver : Option PrincipalRegistry) (s : W)
      → ((registry : PrincipalRegistry) (session : PrincipalSession) (w : W) (banks : List String)
          → resolver ≡ some registry
          → authenticate_principal runtime http "admin" s ≡ (ok (some session), w)
          → all_authorized registry session "quarantine.review" banks ≡ true
          → scoped banks ≡ true)
      → answer_stranger runtime decode guarded http (scope_of http.method http.pathname) resolver s
        ≡ answer_stranger runtime decode service http
            (scope_of http.method http.pathname)
            resolver
            s
  unfolding answer_stranger
  answer_stranger-monitored none s h = by_token s
  answer_stranger-monitored (some registry) s h =
      elim (Bool-cases (is_principal runtime decode service http)) [
        | inr q ↦ rw q (by_token s)
        | inl q ↦ elim (Act-cases (authenticate_principal runtime http "admin" s)) [
          | inr (e, w, a) ↦ rw q (rw (a, ◌>>=◌) refl)
          | inl (none, w, a) ↦ rw q (rw (a, ◌>>=◌) (answer_metadata-nobody registry _))
          | inl (some session, w, a) ↦ rw q (
              rw (a, ◌>>=◌)
                (answer_metadata-monitored registry session _
                  (λ banks m. h registry session w banks refl a m)))
        ]
      ]

-- The handling of a request to the administration does not change when a check stands before each
-- call of the service: for reading everything, any token of the scope `read`; for the cleanup and for
-- a decision on an item, the token of the slot that is recorded, in the scope of the call; and for
-- reading about banks, the principal whom the request's authentication gives, who holds
-- `quarantine.review` on each of the banks.
pub dispatch_admin-monitored :
    {W : Type 0} (runtime : Runtime W) (decode : String → Result String) (service : AdminService W)
    (http : HttpRequest) (s : W)
    → dispatch_admin runtime decode
        (monitored runtime.admin_tokens http.authorization
          (may_review runtime.resolver (authenticate_principal runtime http "admin" s).0)
          service)
        http
        s
      ≡ dispatch_admin runtime decode service http s
unfolding dispatch_admin
dispatch_admin-monitored runtime decode service http s =
    let scope = scope_of http.method http.pathname in
    let scoped = may_review runtime.resolver (authenticate_principal runtime http "admin" s).0 in
    elim (Bool-cases (admin_authorized http.authorization scope runtime.admin_tokens)) [
      | inl q ↦ rw q (answer_known-monitored runtime decode service http scoped true s)
      | inr q ↦ rw q (
          answer_stranger-monitored runtime decode service http scoped runtime.resolver s
            (λ registry session w banks r a m.
              may_review-holds runtime.resolver _ registry session banks r (ap (λ x. x.0) a) m))
    ]
