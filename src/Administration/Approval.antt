-- ===== src/Administration/Approval.antt =====
-- The approval of a quarantined item (memory_router/admin.py): the content that the reviewer sends back
-- is compared with the item, the target bank is settled anew, and then the item is claimed.
use hindsight_memory_router.Json.{Json, Fields, null, string, object}
use hindsight_memory_router.Common.{
  String, Bool, true, false, Option, none, some, List, [], ◌∷◌, ◌==◌, not, ◌&&◌, ◌||◌, opt_eq,
  if◌then◌else◌, http_error, value_error, runtime_error, Result, ok, err, and_then, raise_if,
}
use hindsight_memory_router.Common.Action.{◌>>=◌, ◌>>◌, pure, raise, lift, catch}
use hindsight_memory_router.Quarantine.{
  Item, Detail, text, retain_request, recalled_memory, review_side_effect_completed, status_eq,
}
use hindsight_memory_router.Review.Actions.{
  claim_review, complete_side_effect, finish_approve_retain, finish_approve_memory,
  interrupt_review,
}
use hindsight_memory_router.Policy.{is_safe, lookup_field, or_null}
use hindsight_memory_router.Policy.Retain.{body_json, prepare_retain_body}
use hindsight_memory_router.Principals.{lookup, authorize_current}
use hindsight_memory_router.Envelope.{Decrypted, parse_decrypted, canonical_decrypted}
use hindsight_memory_router.Administration.{
  Act, Service, AdminActor, label, conflict, or_else, exec, now, require_claim_candidate,
  side_effect, error_kind,
}

-- what `approve` returns
pub data Approved : Type 0 where
  approved : (quarantine_id target_bank : String) → Approved
  allowed : (quarantine_id : String) → (source_bank source_memory_id : Json) → Approved

-- the error of `parse_decrypted`, caught
abbrev pub caught : Result Decrypted → Result Decrypted
caught (ok d) = ok d
caught (err (value_error t)) = err (http_error 400 "invalid_decrypted_quarantine")
caught (err e) = err e

-- the loop over the four fields
abbrev pub same_metadata : Decrypted → Item → Bool
same_metadata d item =
    (d.quarantine_id == item.quarantine_id)
    && (d.reason == item.reason)
    && opt_eq d.writer_id item.writer_id
    && opt_eq d.source item.source

-- a text that is not empty
abbrev pub non_empty_text : Option Json → Option String
non_empty_text (some (string t)) = if t == "" then none else some t
non_empty_text _ = none

-- `fields.get(key) == t`
abbrev pub is_text : Option Json → String → Bool
is_text (some (string t)) u = t == u
is_text _ u = false

-- a JSON value equals what the row holds; None is null
abbrev pub is_optional_text : Json → Option String → Bool
is_optional_text (string t) (some u) = t == u
is_optional_text null none = true
is_optional_text _ _ = false

-- identity_mode, with what replaces None
abbrev pub mode_of : Json → Bool → Json
mode_of null unknown_writer = if unknown_writer then string "legacy" else null
mode_of mode unknown_writer = mode

module _ {W : Type 0} (service : Service W) where
  -- _verify_exact
  unfoldable pub verify_exact : Item → Json → Result Decrypted
  verify_exact item value =
      and_then (raise_if (opt_eq item.envelope none) (conflict "quarantine_payload_unavailable"))
        λ u. and_then (caught (parse_decrypted service.dumps value)) λ d.
          and_then (canonical_decrypted service.dumps d) λ t.
            if not (service.sha256_hex t == item.sha256)
            then err (conflict "quarantine_hash_mismatch")
            else if not (same_metadata d item)
            then err (conflict "quarantine_metadata_mismatch")
            else ok d

  -- _legacy_retain_bank
  unfoldable pub legacy_retain_bank : String → Result String
  legacy_retain_bank writer_id = elim (lookup writer_id service.write_banks) [
    | none ↦ err (conflict "writer_not_registered")
    | some bank ↦ ok bank
  ]

  -- _require_principal_retain_grant
  unfoldable pub is_retain_granted : String → String → Bool
  is_retain_granted principal_id bank = elim service.principal_resolver [
    | none ↦ false
    | some registry ↦ authorize_current registry principal_id "memory.retain" bank
  ]

  -- the end of _retain_target
  unfoldable pub checked_target : Item → String → String → String → Result String
  checked_target item writer_id mode bank =
      if not (opt_eq (some bank) item.bank_id)
      then err (conflict "quarantine_metadata_mismatch")
      else if mode == "principal"
      then if is_retain_granted writer_id bank
        then ok bank
        else err (http_error 403 "authorization_denied")
      else and_then (legacy_retain_bank writer_id)
          λ current. if current == bank then ok bank else err (conflict "quarantine_target_changed")

  -- _retain_target from `target_bank = ...` on
  unfoldable pub target_by_mode : Item → Json → String → String → Result String
  target_by_mode item target writer_id mode =
      if (mode == "legacy") && (item.reason == "unknown_writer") && is_optional_text target none
      then legacy_retain_bank writer_id
      else elim (non_empty_text (some target)) [
        | none ↦ err (conflict "invalid_quarantine_payload")
        | some bank ↦ checked_target item writer_id mode bank
      ]

  unfoldable pub new_target : Item → Fields → String → Result String
  new_target item payload writer_id =
      elim (mode_of (or_null (lookup_field "identity_mode" payload))
        (item.reason == "unknown_writer")) [
          | null ↦ err (conflict "quarantine_provenance_missing")
          | string mode ↦
              if (mode == "legacy") || (mode == "principal")
              then target_by_mode item (or_null (lookup_field "target_bank" payload)) writer_id mode
              else err (conflict "invalid_quarantine_payload")
          | other ↦ err (conflict "invalid_quarantine_payload")
        ]

  -- _retain_target
  unfoldable pub retain_target : Item → Fields → String → Result String
  retain_target item payload writer_id =
      if not (opt_eq (some writer_id) item.writer_id)
      then err (conflict "quarantine_metadata_mismatch")
      else if not (status_eq item.status review_side_effect_completed)
      then new_target item payload writer_id
      else elim item.bank_id [ none ↦ new_target item payload writer_id | some bank ↦ ok bank ]

  -- _execute_retain_approval
  unfoldable pub execute_retain_approval :
      String → Item → String → String → Json → List (String × Detail) → Act W (Unit {0})
  execute_retain_approval id item writer_id bank approved_body details = do
    service.consume_retain writer_id
    at ← now service
    claimed ← exec service (
        claim_review service.parse_iso id retain_request at (some service.review_stale_seconds) true
          (some item.sha256) (some item.updated_at) (some bank))
    answer ← side_effect service claimed at (service.retain bank approved_body)
    exec service (complete_side_effect id at (some item.sha256))
    exec service (finish_approve_retain id at details (some item.sha256))

  abbrev pub approval_details : String → String → String → List (String × Detail)
  approval_details writer_id bank actor =
      ("writer_id", text writer_id) ∷ ("target_bank", text bank) ∷ ("actor", text actor) ∷ []

  -- _approve_retain from the target on
  unfoldable pub approve_retain_to :
      String → Item → String → String → Json → String → Act W Approved
  approve_retain_to id item writer_id bank body actor = do
    retain_body ← lift (service.parse_retain_body body)
    scan ← service.scan_request retain_body writer_id
    if not (is_safe scan) && not (item.reason == "suspicious_content")
        then raise (conflict "quarantine_security_review_required")
        else do
          lift (service.assert_retain_bounds retain_body)
          let approved_body =
              prepare_retain_body retain_body writer_id (or_else item.source "quarantine_review")
                bank "approved"
          let details = approval_details writer_id bank actor
          if status_eq item.status review_side_effect_completed
              then exec service
                  (finish_approve_retain id item.updated_at details (some item.sha256))
              else execute_retain_approval id item writer_id bank (body_json approved_body) details
          pure (approved id bank)

  -- _approve_retain
  unfoldable pub approve_retain : String → Item → Decrypted → String → Act W Approved
  approve_retain id item decrypted actor = elim decrypted.payload [
    | object payload ↦
        if not (is_text (lookup_field "action" payload) "retain")
        then raise (conflict "invalid_quarantine_payload")
        else elim (non_empty_text (lookup_field "writer_id" payload)) [
          | none ↦ raise (http_error 400 "invalid_request")
          | some writer_id ↦ lift (retain_target item payload writer_id) >>= λ bank.
              approve_retain_to id item writer_id bank (or_null (lookup_field "body" payload)) actor
        ]
    | other ↦ raise (conflict "invalid_quarantine_payload")
  ]

  -- _approve_recalled_memory, for a payload with a dict as its result
  unfoldable pub approve_result : String → Item → Json → Fields → String → Act W Approved
  approve_result id item bank_id result actor =
      if not (is_optional_text bank_id item.source_bank)
        || not (is_optional_text (or_null (lookup_field "id" result)) item.source_memory_id)
      then raise (conflict "quarantine_source_mismatch")
      else do
        at ← now service
        claimed ← exec service (
            claim_review service.parse_iso id recalled_memory at (some service.review_stale_seconds)
              false (some item.sha256) (some item.updated_at) none)
        catch (exec service (finish_approve_memory id at (some item.sha256) (some actor)))
            (λ e. exec service (interrupt_review claimed at (error_kind e)) >> raise e)
        elim (lookup_field "id" result) [
          | none ↦ raise (runtime_error "KeyError")
          | some memory_id ↦ pure (allowed id bank_id memory_id)
        ]

  unfoldable pub approve_recalled_memory : String → Item → Decrypted → String → Act W Approved
  approve_recalled_memory id item decrypted actor = elim decrypted.payload [
    | object payload ↦ elim (lookup_field "result" payload) [
      | some (object result) ↦
          if is_text (lookup_field "action" payload) "recalled_memory"
          then approve_result id item (or_null (lookup_field "bank_id" payload)) result actor
          else raise (conflict "invalid_quarantine_payload")
      | other ↦ raise (conflict "invalid_quarantine_payload")
    ]
    | other ↦ raise (conflict "invalid_quarantine_payload")
  ]

  -- approve
  unfoldable pub approve : String → Fields → AdminActor → Act W Approved
  approve id body actor = do
    item ← require_claim_candidate service id
    decrypted ← lift (verify_exact item (or_null (lookup_field "decrypted" body)))
    elim item.kind [
      | retain_request ↦ approve_retain id item decrypted (label actor)
      | recalled_memory ↦ approve_recalled_memory id item decrypted (label actor)
      | other ↦ raise (conflict "invalid_review_action")
    ]
