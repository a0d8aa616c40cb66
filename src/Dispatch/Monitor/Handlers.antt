-- ===== src/Dispatch/Monitor/Handlers.antt =====
-- The memories, the list of banks and the denial behave the same behind the monitor
-- (memory_router/request_dispatch.py).
use hindsight_memory_router.Common.Action.{Act-cases, ◌>>◌, raise}
use hindsight_memory_router.Dispatch.{
  denied, answer_banks, Services, Dependencies, Request, require, require_grant, any_bank,
  answer_memory, answer_denied, granted_denied_bank, bank_path_segment,
}
use hindsight_memory_router.Common.{
  arith, ◌≡◌, refl, sym, ◌∙◌, ap, ==_self, inl, inr, Bool-cases, Option-cases, String, Bool, true,
  false, some, List, [], ◌∷◌, ◌==◌, ◌&&◌, opt_eq, member, if◌then◌else◌,
}
use hindsight_memory_router.Principals.{
  PrincipalRegistry, PrincipalSession, authorize, banks_with_scope,
}
use hindsight_memory_router.Principals.Laws.{member-banks_with_scope}
use hindsight_memory_router.Dispatch.Monitor.{
  refused, all_authorized, bank_allows, is_own, monitored,
}

pub all_authorized-member :
    (registry : PrincipalRegistry) (session : PrincipalSession) (scope : String)
    (banks : List String)
    → ((b : String) → member b banks ≡ true → authorize registry session scope b ≡ true)
    → all_authorized registry session scope banks ≡ true
unfolding all_authorized member
all_authorized-member registry session scope [] h = refl
all_authorized-member registry session scope (b ∷ bs) h =
    let rest =
      all_authorized-member registry session scope bs
        (λ c m. h c (elim (Bool-cases (b == c)) [ inl q ↦ ground arith | inr q ↦ ground arith ])) in
    ground (arith, h b, ==_self b)

granted_denied_bank-bank_allows :
    {W : Type 0} (deps : Dependencies W) (pathname : String) (session : PrincipalSession)
    → bank_allows session (granted_denied_bank deps pathname session) ≡ true
unfolding granted_denied_bank
granted_denied_bank-bank_allows deps pathname session =
    elim (Option-cases (bank_path_segment deps pathname)) [
      | inl q ↦ ground arith
      | inr (bank, q) ↦ elim (Bool-cases (any_bank bank session.grants)) [
        | inl r ↦ ground arith
        | inr r ↦ ground arith
      ]
    ]

module _ {W : Type 0} (registry : PrincipalRegistry) (session : PrincipalSession)
    (deps : Dependencies W) (services : Services W) where
  abbrev pub guarded : Services W
  guarded = monitored registry session deps.parse_bool services

  pub own : is_own session session.principal_id session.source ≡ true
  own = ground (arith, ==_self session.principal_id, ==_self session.source)

  answer_memory-monitored_granted :
      (bank : String) (is_recall : Bool) (s : W)
      → authorize registry session (if is_recall then "memory.recall" else "memory.retain") bank
        ≡ true
      → answer_memory deps guarded session bank is_recall s
        ≡ answer_memory deps services session bank is_recall s
  unfolding answer_memory
  answer_memory-monitored_granted bank true s h =
      let allowed : (is_own session session.principal_id session.source
            && authorize registry session "memory.recall" bank)
          ≡ true =
        ground (arith, own) in
      ap
        (λ c.
          answer_memory deps
            (record services {
              recall_bank =
                  λ id b body source. if c then services.recall_bank id b body source else refused;
            })
            session bank true s)
        allowed
  answer_memory-monitored_granted bank false s h =
      let allowed : (is_own session session.principal_id session.source
            && authorize registry session "memory.retain" bank)
          ≡ true =
        ground (arith, own) in
      ap
        (λ c.
          answer_memory deps
            (record services {
              retain_bank =
                  λ id b body source. if c then services.retain_bank id b body source else refused;
            })
            session bank false s)
        allowed

  -- without the grant, a request to the memories is refused after the charge of the rate
  answer_memory-denied :
      (any : Services W) (bank : String) (is_recall : Bool) (s : W)
      → deps.resolver ≡ some registry
      → authorize registry session (if is_recall then "memory.recall" else "memory.retain") bank
        ≡ false
      → answer_memory deps any session bank is_recall s
        ≡ (deps.principal_rate session (if is_recall then "memory.recall" else "memory.retain")
              >> raise denied)
            s
  unfolding answer_memory require require_grant
  answer_memory-denied any bank is_recall s r h =
      let scope : String = if is_recall then "memory.recall" else "memory.retain" in
      elim (Act-cases (deps.principal_rate session scope s)) [
        | inl (u, t, q) ↦ ground arith
        | inr (e, t, q) ↦ ground arith
      ]

  pub answer_memory-monitored :
      (bank : String) (is_recall : Bool) (s : W)
      → deps.resolver ≡ some registry
      → answer_memory deps guarded session bank is_recall s
        ≡ answer_memory deps services session bank is_recall s
  answer_memory-monitored bank is_recall s r =
      let scope : String = if is_recall then "memory.recall" else "memory.retain" in
      elim (Bool-cases (authorize registry session scope bank)) [
        | inl h ↦ answer_memory-monitored_granted bank is_recall s h
        | inr h ↦
            answer_memory-denied guarded bank is_recall s r h
            ∙ sym (answer_memory-denied services bank is_recall s r h)
      ]

  pub answer_banks-monitored :
      (request : Request) (s : W)
      → answer_banks deps guarded registry request session s
        ≡ answer_banks deps services registry request session s
  unfolding answer_banks banks_with_scope
  answer_banks-monitored request s =
      let banks = banks_with_scope registry session "bank.list" in
      let every =
        all_authorized-member registry session "bank.list" banks
          (λ b m. sym (member-banks_with_scope registry session "bank.list" b) ∙ m) in
      let listed =
        ap
          (λ c.
            answer_banks deps
              (record services {
                list_banks = λ bs q limit offset.
                    if c then services.list_banks bs q limit offset else refused;
                validate_banks = guarded.validate_banks;
              })
              registry request session s)
          every in
      let validated =
        ap
          (λ c.
            answer_banks deps
              (record services {
                validate_banks = λ id source payload.
                    if c then services.validate_banks id source payload else refused;
              })
              registry request session s)
          own in
      listed ∙ validated

  pub answer_denied-monitored :
      (request : Request) (s : W)
      → answer_denied deps guarded request (some session) s
        ≡ answer_denied deps services request (some session) s
  unfolding answer_denied
  answer_denied-monitored request s =
      let bank = granted_denied_bank deps request.pathname session in
      let allowed : (opt_eq (some session.principal_id) (some session.principal_id)
            && bank_allows session bank)
          ≡ true =
        ground (
          arith,
          ==_self session.principal_id,
          granted_denied_bank-bank_allows deps request.pathname session,
        ) in
      ap
        (λ c.
          answer_denied deps
            (record services {
              deny_endpoint = λ method path writer b.
                  if c then services.deny_endpoint method path writer b else refused;
            })
            request (some session) s)
        allowed
