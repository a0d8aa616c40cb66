-- ===== src/Administration/Tests.antt =====
-- A service over a counter of its writes, and the theorems at it.
use hindsight_memory_router.Json.{Fields, null, string, object, field, end, rfc8785_safe}
use hindsight_memory_router.Common.{
  arith, ◌≡◌, refl, ℕ, ◌+◌, String, true, none, some, [], ◌∷◌, Error, http, timeout, gateway_error,
  ok, err, member,
}
use hindsight_memory_router.Common.Table.{count_where, find_where, update_where, delete_where}
use hindsight_memory_router.Quarantine.{
  Status, Item, Db, retain_request, review_side_effect_started, postponed, has_id, transaction,
  select_item, update_item, delete_item, insert_event,
}
use hindsight_memory_router.Review.Machine.{IsUnique}
use hindsight_memory_router.Review.Guards.{
  mutate_review, mutate_transaction, assert_snapshot, recover_stale_for_action, assert_reviewable,
  already_finalized, require_review_state,
}
use hindsight_memory_router.Review.Actions.{
  claim_review, claim_item, with_status, complete_side_effect, finish_approve_retain,
}
use hindsight_memory_router.Review.Recovery.{
  confirm_side_effect_not_applied, require_started_snapshot,
}
use hindsight_memory_router.Policy.{Scan, lookup_field, or_null}
use hindsight_memory_router.Policy.Retain.{RetainBody}
use hindsight_memory_router.Principals.{lookup}
use hindsight_memory_router.Envelope.{
  is_quarantine_id, is_id_tail, is_hex, one_of, all_of, parse_decrypted, model_validate,
  required_text, optional_strings_are_non_empty, required_payload, canonical_decrypted,
  prepared_fields,
}
use hindsight_memory_router.Administration.{
  Stage, Service, AdminActor, exec, now, side_effect, side_effect_definitely_failed, require_item,
  is_claim_candidate, assert_not_expired, require_status, require_claim_candidate,
}
use hindsight_memory_router.Administration.Approval.{
  approved, approve, approve_retain, approve_retain_to, execute_retain_approval, verify_exact,
  retain_target, new_target, target_by_mode, checked_target, legacy_retain_bank,
}
use hindsight_memory_router.Administration.Decisions.{
  confirmed_not_applied, kept, reconcile, reconcile_item, reconcile_started, reject,
  postpone_review,
}
use hindsight_memory_router.Administration.Laws.{
  started_row, execute_retain_approval_completes, execute_retain_approval_restores,
  execute_retain_approval_uncertain,
}
use hindsight_memory_router.Administration.Verification.{IsVerified, approve-IsVerified}
use hindsight_memory_router.Administration.Target.{IsAuthorized}
use hindsight_memory_router.Administration.Target.Writes.{approved_bank, approve-IsAuthorized}
use hindsight_memory_router.Administration.Reconciliation.{IsReported, reconcile-IsReported}

abbrev id : String
id = "q_a_0123456789abcdef"

abbrev at : String
at = "2026-01-02T00:00:00.000Z"

abbrev held : Item
held = record {
  quarantine_id = "q_a_0123456789abcdef";
  created_at = "2026-01-01T00:00:00.000Z";
  updated_at = "2026-01-01T00:00:00.000Z";
  kind = retain_request;
  reason = "suspicious_content";
  writer_id = some "agent";
  source = some "openclaw";
  source_bank = none;
  source_memory_id = none;
  source_content_sha256 = none;
  dedupe_key = some "k";
  bank_id = some "bank";
  sha256 = "json";
  envelope = some "{}";
  encrypted_bytes = 2;
  status = Status.pending;
  postpone_count = 0;
  requarantine_count = 0;
  expires_at = none;
}

abbrev no_scan : Scan
no_scan = record { findings = []; transformations = [] }

abbrev empty_body : RetainBody
empty_body = record { items = []; rest = end }

-- the world counts the writes
abbrev service : Service ℕ
service = record {
  wait = λ s. s;
  iso_now = λ w. ("2026-01-02T00:00:00.000Z", w);
  parse_iso = λ t. none;
  dumps = λ v. ok "json";
  sha256_hex = λ t. t;
  parse_retain_body = λ v. ok empty_body;
  scan_request = λ body writer s. (ok no_scan, s);
  assert_retain_bounds = λ body. ok tt;
  consume_retain = λ writer s. (ok tt, s);
  retain = λ bank body s. (ok null, record s { world = s.world + 1 });
  invalidate_memory = λ bank memory reason s. (ok null, s);
  write_banks = ("agent", "bank") ∷ [];
  principal_resolver = none;
  max_postpones = 3;
  review_stale_seconds = 60;
}

abbrev failing : Error → Service ℕ
failing e = record service { retain = λ bank body s. (err e, s) }

abbrev holding : Item → Db
holding item = record { items = item ∷ []; events = [] }

abbrev start : Stage ℕ
start = record { db = holding held; world = 0 }

holding-IsUnique : (item : Item) → IsUnique (holding item).items
unfolding count_where
holding-IsUnique item j = ground arith

abbrev claimed_db : Db
claimed_db =
    (claim_review service.parse_iso id retain_request at (some 60) true (some "json")
      (some "2026-01-01T00:00:00.000Z") (some "bank") (holding held)).1

claimed :
    claim_review service.parse_iso id retain_request at
      (some 60)
      true
      (some "json")
      (some "2026-01-01T00:00:00.000Z")
      (some "bank")
      (holding held)
    ≡ (ok held, claimed_db)
unfolding claim_review mutate_review mutate_transaction transaction select_item find_where
    assert_snapshot recover_stale_for_action assert_reviewable claim_item update_item insert_event
    update_where
claimed = refl

abbrev after_claim : Stage ℕ
after_claim = record { db = claimed_db; world = 0 }

execute_retain_approval_completes_example :
    (s' : Stage ℕ) × (execute_retain_approval service id held "agent" "bank" null [] start
      ≡ (ok tt, s'))
    × (find_where (has_id id) s'.db.items ≡ none)
unfolding now
execute_retain_approval_completes_example =
    execute_retain_approval_completes service id "agent" "bank" null [] held held at start start
      start (record after_claim { world = 1 }) claimed_db (λ s row open_ found. found) refl refl
      (holding-IsUnique held) claimed null refl refl

abbrev refusal : Error
refusal = gateway_error http (some 422) 502

execute_retain_approval_restores_example :
    (s' : Stage ℕ) × (execute_retain_approval (failing refusal) id held "agent" "bank" null [] start
      ≡ (err refusal, s'))
    × (find_where (has_id id) s'.db.items
        ≡ some (with_status Status.pending at (started_row at "bank" held)))
unfolding now side_effect_definitely_failed find_where
execute_retain_approval_restores_example =
    execute_retain_approval_restores (failing refusal) id "agent" "bank" null [] held held at start
      start start after_claim claimed_db (λ s row open_ found. found) refl refl
      (holding-IsUnique held) claimed refusal held refl refl refl refl

abbrev lost : Error
lost = gateway_error timeout none 504

abbrev admin : AdminActor
admin = record { token_scope = some "admin"; principal = none }

execute_retain_approval_uncertain_example :
    (execute_retain_approval (failing lost) id held "agent" "bank" null [] start
      ≡ (err lost, after_claim))
    × (approve (failing lost) id end admin after_claim ≡ (err already_finalized, after_claim))
    × (reject (failing lost) id admin after_claim ≡ (err already_finalized, after_claim))
    × (postpone_review (failing lost) id admin after_claim ≡ (err already_finalized, after_claim))
unfolding now side_effect_definitely_failed is_quarantine_id is_id_tail is_hex one_of all_of
execute_retain_approval_uncertain_example =
    execute_retain_approval_uncertain (failing lost) id "agent" "bank" null [] held held at start
      start start after_claim claimed_db (λ s row open_ found. found) refl refl
      (holding-IsUnique held) claimed lost end admin refl refl refl refl

abbrev payload : Fields
payload = field "action" (string "retain") (
    field "writer_id" (string "agent") (
      field "body" null
        (field "identity_mode" (string "legacy") (field "target_bank" (string "bank") end))))

abbrev reviewed : Fields
reviewed =
    field "decrypted"
      (object (
        field "quarantine_id" (string "q_a_0123456789abcdef") (
          field "created_at" (string "2026-01-01T00:00:00.000Z") (
            field "reason" (string "suspicious_content") (
              field "writer_id" (string "agent")
                (field "source" (string "openclaw") (field "payload" (object payload) end)))))))
      end

-- the approval writes once and removes the row
abbrev end_stage : Stage ℕ
end_stage = (approve service id reviewed admin start).1

approved_once :
    (approve service id reviewed admin start ≡ (ok (approved id "bank"), end_stage))
    × (end_stage.world ≡ 1)
unfolding approve require_claim_candidate require_status require_item assert_not_expired exec now
    is_quarantine_id is_id_tail is_hex one_of all_of verify_exact parse_decrypted model_validate
    required_text optional_strings_are_non_empty required_payload canonical_decrypted
    prepared_fields rfc8785_safe lookup_field or_null member approve_retain approve_retain_to
    retain_target new_target target_by_mode checked_target legacy_retain_bank lookup
    execute_retain_approval side_effect claim_review mutate_review mutate_transaction transaction
    select_item find_where assert_snapshot recover_stale_for_action assert_reviewable claim_item
    update_item insert_event update_where complete_side_effect require_review_state
    finish_approve_retain delete_item delete_where
approved_once = (refl, refl)

approve-IsVerified_example :
    (item : Item) × (find_where (has_id id) (holding held).items ≡ some item)
    × (is_claim_candidate item.status ≡ true)
    × IsVerified service item (or_null (lookup_field "decrypted" reviewed))
approve-IsVerified_example =
    approve-IsVerified service id reviewed admin start end_stage (approved id "bank")
      approved_once.0

approve-IsAuthorized_example :
    (writer_id bank : String) × (held.writer_id ≡ some writer_id)
    × IsAuthorized service held writer_id bank
    × (approved_bank (approved id "bank") ≡ some bank)
unfolding find_where
approve-IsAuthorized_example =
    approve-IsAuthorized service id reviewed admin start end_stage (approved id "bank") held refl
      refl approved_once.0

abbrev not_applied : Fields
not_applied = field "action" (string "confirmed_not_applied") (
    field "expected_sha256" (string "json")
      (field "expected_updated_at" (string "2026-01-02T00:00:00.000Z") end))

abbrev reconciled_stage : Stage ℕ
reconciled_stage = (reconcile service id not_applied admin after_claim).1

reconciled_once :
    reconcile service id not_applied admin after_claim
    ≡ (ok (confirmed_not_applied, kept postponed), reconciled_stage)
unfolding reconcile reconcile_item reconcile_started require_item exec now is_quarantine_id
    is_id_tail is_hex one_of all_of lookup_field or_null claim_review mutate_review
    mutate_transaction transaction select_item find_where assert_snapshot recover_stale_for_action
    assert_reviewable claim_item update_item insert_event update_where
    confirm_side_effect_not_applied require_started_snapshot
reconciled_once = refl

reconcile-IsReported_example :
    (item : Item) × (find_where (has_id id) claimed_db.items ≡ some item)
    × (item.status ≡ review_side_effect_started)
    × IsReported (kept postponed) id reconciled_stage.db
reconcile-IsReported_example =
    reconcile-IsReported service id not_applied admin after_claim reconciled_stage
      confirmed_not_applied (kept postponed) reconciled_once
