-- ===== src/Principals/Laws.antt =====
-- The listed and inherited banks are the authorized ones (memory_router/principals.py).
use hindsight_memory_router.Common.{
  ap, arith, ◌≡◌, refl, String, List, [], ◌∷◌, ◌==◌, ◌&&◌, ◌||◌, member, eq_iff, inl, inr,
  Bool-cases,
}
use hindsight_memory_router.Principals.{
  PrincipalRegistry, PrincipalSession, PrincipalGrant, authorize, granted, policy_allows,
  insert_text, banks_of, banks_with_scope, inherited_banks,
}

pub member-insert_text :
    (s t : String) (ts : List String) → member s (insert_text t ts) ≡ ((t == s) || member s ts)
unfolding member insert_text
member-insert_text s t [] = ground arith
member-insert_text s t (u ∷ us) =
    ground (arith, member-insert_text s t us, eq_iff u t, eq_iff t s, eq_iff u s)

module _ (registry : PrincipalRegistry) (session : PrincipalSession) where
  member-banks_of :
      (scope bank : String) (gs : List PrincipalGrant)
      → member bank (banks_of registry session scope gs)
        ≡ (granted scope bank gs && policy_allows registry session.principal_id session.source bank)
  unfolding banks_of granted member
  member-banks_of scope bank [] = refl
  member-banks_of scope bank (g ∷ gs) = elim (Bool-cases (g.bank == bank)) [
    | inl q ↦
        let same = (eq_iff g.bank bank).0 q in
        ground (
          arith,
          member-banks_of scope bank gs,
          member-insert_text bank g.bank (banks_of registry session scope gs),
          ap (policy_allows registry session.principal_id session.source) same,
        )
    | inr q ↦ ground (
      arith,
      member-banks_of scope bank gs,
      member-insert_text bank g.bank (banks_of registry session scope gs),
    )
  ]

  -- A bank is among those listed for a scope exactly when the session is authorized for that scope
  -- on it.
  pub member-banks_with_scope :
      (scope bank : String)
      → member bank (banks_with_scope registry session scope)
        ≡ authorize registry session scope bank
  unfolding banks_with_scope authorize
  member-banks_with_scope scope bank = member-banks_of scope bank session.grants

  -- The banks that a task inherits are those of the requested ones for which its parent is
  -- authorized.
  pub member-inherited_banks :
      (banks : List String) (scope bank : String)
      → member bank (inherited_banks registry session banks scope)
        ≡ (member bank banks && authorize registry session scope bank)
  unfolding inherited_banks member
  member-inherited_banks [] scope bank = refl
  member-inherited_banks (b ∷ bs) scope bank = elim (Bool-cases (b == bank)) [
    | inl q ↦ ground (
      arith,
      member-inherited_banks bs scope bank,
      member-insert_text bank b (inherited_banks registry session bs scope),
      ap (authorize registry session scope) ((eq_iff b bank).0 q),
    )
    | inr q ↦ ground (
      arith,
      member-inherited_banks bs scope bank,
      member-insert_text bank b (inherited_banks registry session bs scope),
    )
  ]
