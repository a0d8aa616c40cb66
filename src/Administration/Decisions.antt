-- ===== src/Administration/Decisions.antt =====
-- Rejecting and postponing an item, and reconciling a side effect whose outcome is unknown
-- (memory_router/admin.py).
use hindsight_memory_router.Json.{Json, Fields}
use hindsight_memory_router.Common.{
  ℕ, String, Bool, true, Option, none, some, List, [], ◌∷◌, ◌==◌, not, ◌||◌, if◌then◌else◌,
  http_error, runtime_error, Result, ok, err,
}
use hindsight_memory_router.Common.Action.{◌>>=◌, ◌>>◌, pure, raise, lift}
use hindsight_memory_router.Quarantine.{
  Status, postponed, reviewed_blocked, Item, Detail, text, optional, retain_request,
  recalled_memory, review_side_effect_started, review_side_effect_completed, status_eq,
}
use hindsight_memory_router.Review.Actions.{
  claim_review, complete_side_effect, finish_approve_retain, finish_reject_memory, remove, postpone,
}
use hindsight_memory_router.Review.Recovery.{
  confirm_side_effect_applied, confirm_side_effect_not_applied,
}
use hindsight_memory_router.Policy.{concat, lookup_field, or_null}
use hindsight_memory_router.Administration.{
  Act, Service, AdminActor, label, conflict, exec, now, require_item, require_claim_candidate,
  side_effect,
}
use hindsight_memory_router.Administration.Approval.{is_text, non_empty_text, is_optional_text}

-- what `reject` returns
pub data Rejected : Type 0 where
  blocked : (quarantine_id source_bank source_memory_id : String) → Rejected
  rejected : (quarantine_id : String) → Rejected

-- the actions of `reconcile`
pub data Reconcile : Type 0 where
  confirmed_applied confirmed_not_applied : Reconcile

-- what became of the item
pub data Outcome : Type 0 where
  approved : Outcome
  kept : Status → Outcome

-- bank_id and memory_id, both texts that are not empty
abbrev pub source_of : Item → Option (String × String)
source_of item = elim item.source_bank [
  | none ↦ none
  | some bank ↦ elim item.source_memory_id [
    | none ↦ none
    | some memory ↦ if (bank == "") || (memory == "") then none else some (bank, memory)
  ]
]

abbrev pub reconcile_action : Option Json → Result Reconcile
reconcile_action action =
    if is_text action "confirmed_applied"
    then ok confirmed_applied
    else if is_text action "confirmed_not_applied"
    then ok confirmed_not_applied
    else err (http_error 400 "invalid_request")

abbrev pub required : Option Json → Result String
required v = elim (non_empty_text v) [
  | none ↦ err (http_error 400 "invalid_request")
  | some t ↦ ok t
]

-- decision not in (None, expected)
abbrev pub contradicts : Json → String → Bool
contradicts decision expected =
    not (is_optional_text decision none || is_optional_text decision (some expected))

abbrev pub reconcile_details : Item → String → List (String × Detail)
reconcile_details item actor =
    ("writer_id", optional item.writer_id)
    ∷ ("target_bank", optional item.bank_id)
    ∷ ("actor", text actor)
    ∷ []

module _ {W : Type 0} (service : Service W) where
  -- the `else` branch of `reject` for a recalled memory
  unfoldable pub execute_rejection : String → Item → String → String → String → Act W (Unit {0})
  execute_rejection id item bank memory actor = do
    at ← now service
    claimed ← exec service (
        claim_review service.parse_iso id recalled_memory at (some service.review_stale_seconds)
          true (some item.sha256) (some item.updated_at) none)
    answer ← side_effect service claimed at (
        service.invalidate_memory bank memory
          (concat ("Rejected by memory-router quarantine review " ∷ id ∷ [])))
    exec service (complete_side_effect id at (some item.sha256))
    exec service (finish_reject_memory id at (some item.sha256) (some actor))

  unfoldable pub reject_memory : String → Item → String → Act W Rejected
  reject_memory id item actor = elim (source_of item) [
    | none ↦ raise (conflict "quarantine_source_missing")
    | some (bank, memory) ↦
        (if status_eq item.status review_side_effect_completed
          then exec service
              (finish_reject_memory id item.updated_at (some item.sha256) (some actor))
          else execute_rejection id item bank memory actor)
        >> pure (blocked id bank memory)
  ]

  unfoldable pub reject_item : String → Item → String → Act W Rejected
  reject_item id item actor = elim item.kind [
    | recalled_memory ↦ reject_memory id item actor
    | other ↦ do
      at ← now service
      exec service (
          remove service.parse_iso id "rejected" at (some service.review_stale_seconds)
            (some actor))
      pure (rejected id)
  ]

  -- reject
  unfoldable pub reject : String → AdminActor → Act W Rejected
  reject id actor = do item ← require_claim_candidate service id; reject_item id item (label actor)

  -- postpone: the new count
  unfoldable pub postpone_review : String → AdminActor → Act W ℕ
  postpone_review id actor = do
    item ← require_claim_candidate service id
    at ← now service
    next_item ← exec service (
        postpone service.parse_iso id at (some service.review_stale_seconds)
          (some service.max_postpones) (some (label actor)))
    elim next_item [
      | none ↦ raise (runtime_error "TypeError")
      | some item ↦ pure item.postpone_count
    ]

  -- _reconcile_applied
  unfoldable pub reconcile_applied :
      String → String → Item → Json → String → String → String → Act W Outcome
  reconcile_applied id at item decision sha updated actor = elim item.kind [
    | retain_request ↦
        if contradicts decision "approve" then raise (conflict "invalid_review_action") else do
          exec service (confirm_side_effect_applied id at sha updated (some actor))
          exec service (finish_approve_retain id at (reconcile_details item actor) (some sha))
          pure approved
    | recalled_memory ↦
        if contradicts decision "reject" then raise (conflict "invalid_review_action") else do
          exec service (confirm_side_effect_applied id at sha updated (some actor))
          exec service (finish_reject_memory id at (some sha) (some actor))
          pure (kept reviewed_blocked)
    | other ↦ raise (conflict "invalid_review_action")
  ]

  -- the two branches of `reconcile`
  unfoldable pub reconcile_started :
      String → String → Item → Reconcile → Json → String → String → String → Act W Outcome
  reconcile_started id at item confirmed_not_applied decision sha updated actor =
      exec service (confirm_side_effect_not_applied id at sha updated (some actor))
      >> pure (kept postponed)
  reconcile_started id at item confirmed_applied decision sha updated actor =
      reconcile_applied id at item decision sha updated actor

  unfoldable pub reconcile_item :
      String → Reconcile → Json → String → String → String → Act W Outcome
  reconcile_item id action decision sha updated actor = do
    item ← require_item service id
    if not (status_eq item.status review_side_effect_started)
        then raise (conflict "invalid_review_action")
        else do at ← now service; reconcile_started id at item action decision sha updated actor

  -- reconcile
  unfoldable pub reconcile : String → Fields → AdminActor → Act W (Reconcile × Outcome)
  reconcile id body actor = do
    action ← lift (reconcile_action (lookup_field "action" body))
    sha ← lift (required (lookup_field "expected_sha256" body))
    updated ← lift (required (lookup_field "expected_updated_at" body))
    outcome ←
        reconcile_item id action (or_null (lookup_field "decision" body)) sha updated (label actor)
    pure (action, outcome)
