-- ===== src/Principals/Tests.antt =====
-- A registry with one principal, and the theorems at it.
use hindsight_memory_router.Principals.Laws.{member-banks_with_scope}
use hindsight_memory_router.Principals.{
  Principal, PrincipalRegistry, PrincipalSession, PrincipalGrant, authorize, granted, policy_allows,
  lookup, limits_for, banks_with_scope, scope_bank_list,
}
use hindsight_memory_router.Common.{◌≡◌, refl, false, none, some, [], ◌∷◌, member, List}

abbrev grants : List PrincipalGrant
grants =
    record { bank = "work"; scopes = "bank.list" ∷ "memory.recall" ∷ [] }
    ∷ record { bank = "private"; scopes = "bank.list" ∷ [] }
    ∷ []

abbrev agent : Principal
agent = record { keys = []; grants = grants; limits = λ op. none; source = "application" }

abbrev registry : PrincipalRegistry
registry = record {
  principals = ("agent", agent) ∷ [];
  defaults = λ op. none;
  banks = ("private", record { access_policy = some ("other" ∷ []) }) ∷ [];
}

abbrev session : PrincipalSession
session = record {
  principal_id = "agent";
  key_id = "k";
  grants = grants;
  limits = limits_for registry agent;
  source = "application";
}

-- the policy of a bank overrides a grant
authorize_refused : authorize registry session "bank.list" "private" ≡ false
unfolding authorize policy_allows lookup granted member
authorize_refused = refl

member-banks_with_scope_example :
    member "work" (banks_with_scope registry session scope_bank_list)
    ≡ authorize registry session scope_bank_list "work"
member-banks_with_scope_example = member-banks_with_scope registry session scope_bank_list "work"
