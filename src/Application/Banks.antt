-- ===== src/Application/Banks.antt =====
-- The banks that a principal asks the administration about (memory_router/principal_gate.py,
-- `principal_admin_metadata_response` of memory_router/app.py).
use hindsight_memory_router.Dispatch.{is_empty, require_grant}
use hindsight_memory_router.Principals.{
  quarantine_review_banks, PrincipalRegistry, PrincipalSession, authorize,
}
use hindsight_memory_router.Common.{
  arith, ◌≡◌, refl, sym, ◌∙◌, inl, inr, Result-cases, Bool-cases, String, true, Option, none, some,
  List, [], ◌∷◌, Result, ok,
}
use hindsight_memory_router.Principals.Laws.{member-banks_with_scope}
use hindsight_memory_router.Dispatch.Monitor.{all_authorized}
use hindsight_memory_router.Dispatch.Monitor.Handlers.{all_authorized-member}
use hindsight_memory_router.Application.{Runtime}
use hindsight_memory_router.Application.Routes.{AdminService, scoped_banks}

require_grant-authorize :
    (registry : PrincipalRegistry) (session : PrincipalSession) (scope bank : String) (u : Unit {0})
    → require_grant registry session scope bank ≡ ok u
    → authorize registry session scope bank ≡ true
unfolding require_grant
require_grant-authorize registry session scope bank u h = ground arith

-- the banks that a principal asks about are banks that it may review
pub scoped_banks-all_authorized :
    {W : Type 0} (runtime : Runtime W) (decode : String → Result String) (service : AdminService W)
    (registry : PrincipalRegistry) (session : PrincipalSession) (bank : Option String)
    (banks : List String)
    → scoped_banks runtime decode service registry session bank ≡ ok banks
    → all_authorized registry session "quarantine.review" banks ≡ true
unfolding all_authorized
scoped_banks-all_authorized runtime decode service registry session (some bank) banks h =
    elim (Result-cases (require_grant registry session "quarantine.review" bank)) [
      | inr (e, q) ↦ absurd (ground arith)
      | inl (u, q) ↦
          let allowed = require_grant-authorize registry session "quarantine.review" bank u q in
          let same : banks ≡ bank ∷ [] = ground arith in rw same (rw allowed refl)
    ]
scoped_banks-all_authorized runtime decode service registry session none banks h =
    let listed = quarantine_review_banks registry session in
    let every : all_authorized registry session "quarantine.review" listed ≡ true =
      all_authorized-member registry session "quarantine.review" listed
        (λ b m. sym (member-banks_with_scope registry session "quarantine.review" b) ∙ m) in
    elim (Bool-cases (is_empty listed)) [
      | inr q ↦ ground arith
      | inl q ↦ elim (Result-cases (require_grant registry session "quarantine.review" "-")) [
        | inr (e, g) ↦ absurd (ground arith)
        | inl (u, g) ↦ ground arith
      ]
    ]
