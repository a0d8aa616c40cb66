-- ===== src/Administration/Target/Writes.antt =====
-- An approval returns the bank that was settled, so the bank is one for which the write is authorized.
use hindsight_memory_router.Common.Action.{Act-cases}
use hindsight_memory_router.Json.{Json, Fields, null, boolean, integer, real, string, array, object}
use hindsight_memory_router.Common.{
  arith, ◌≡◌, refl, inl, inr, Bool-cases, Option-cases, Result-cases, String, not, Option, some,
  none, ok, ◌==◌, ◌&&◌,
}
use hindsight_memory_router.Common.Table.{find_where}
use hindsight_memory_router.Quarantine.{
  Item, retain_request, has_id, status_eq, review_side_effect_completed,
}
use hindsight_memory_router.Review.Actions.{finish_approve_retain}
use hindsight_memory_router.Policy.{lookup_field, or_null, is_safe}
use hindsight_memory_router.Policy.Retain.{body_json, prepare_retain_body}
use hindsight_memory_router.Envelope.{Decrypted}
use hindsight_memory_router.Administration.{
  Stage, Service, AdminActor, label, or_else, exec, require_claim_candidate,
}
use hindsight_memory_router.Administration.Verification.{require_claim_candidate_found}
use hindsight_memory_router.Administration.Approval.{
  Approved, approved, allowed, approve, approve_retain, approve_retain_to, verify_exact,
  retain_target, is_text, non_empty_text, approval_details, execute_retain_approval,
}
use hindsight_memory_router.Administration.Target.{IsAuthorized, retain_target-IsAuthorized}

abbrev pub approved_bank : Approved → Option String
approved_bank (approved id bank) = some bank
approved_bank (allowed id source memory) = none

module _ {W : Type 0} (service : Service W) where
  approve_retain_to-bank :
      (id : String) (item : Item) (writer_id bank : String) (body : Json) (actor : String)
      (s s' : Stage W) (result : Approved)
      → approve_retain_to service id item writer_id bank body actor s ≡ (ok result, s')
      → approved_bank result ≡ some bank
  unfolding approve_retain_to
  approve_retain_to-bank id item writer_id bank body actor s s' result h =
      elim (Result-cases (service.parse_retain_body body)) [
        | inr (x, e) ↦ absurd (ground arith)
        | inl (parsed, e) ↦ elim (Act-cases (service.scan_request parsed writer_id s)) [
          | inr (x, s1, q) ↦ absurd (ground arith)
          | inl (scan, s1, q) ↦
              elim (Bool-cases (not (is_safe scan) && not (item.reason == "suspicious_content"))) [
                | inl refused ↦ absurd (ground arith)
                | inr fine ↦ elim (Result-cases (service.assert_retain_bounds parsed)) [
                  | inr (x, b) ↦ absurd (ground arith)
                  | inl (v, b) ↦
                      let details = approval_details service writer_id bank actor in
                      let prepared = body_json (
                        prepare_retain_body parsed writer_id
                          (or_else item.source "quarantine_review") bank "approved") in
                      elim (Bool-cases (status_eq item.status review_side_effect_completed)) [
                        | inl done ↦
                            elim (Act-cases (
                              exec service
                                (finish_approve_retain id item.updated_at details
                                  (some item.sha256))
                                s1)) [
                                  | inr (x, s2, k) ↦ absurd (ground arith)
                                  | inl (w, s2, k) ↦ ground arith
                                ]
                        | inr fresh ↦
                            elim (Act-cases (
                              execute_retain_approval service id item writer_id bank prepared
                                details s1)) [
                                  | inr (x, s2, k) ↦ absurd (ground arith)
                                  | inl (w, s2, k) ↦ ground arith
                                ]
                      ]
                ]
              ]
        ]
      ]

  approve_payload :
      (id : String) (item : Item) (payload : Json) (d : Decrypted) (actor : String) (s s' : Stage W)
      (result : Approved)
      → d.payload ≡ payload
      → approve_retain service id item d actor s ≡ (ok result, s')
      → (writer_id bank : String) × (item.writer_id ≡ some writer_id)
        × IsAuthorized service item writer_id bank
        × (approved_bank result ≡ some bank)
  unfolding approve_retain
  approve_payload id item null d actor s s' result p h = absurd (ground arith)
  approve_payload id item (boolean b) d actor s s' result p h = absurd (ground arith)
  approve_payload id item (integer x n) d actor s s' result p h = absurd (ground arith)
  approve_payload id item (real f t) d actor s s' result p h = absurd (ground arith)
  approve_payload id item (array xs) d actor s s' result p h = absurd (ground arith)
  approve_payload id item (string t) d actor s s' result p h = absurd (ground arith)
  approve_payload id item (object payload) d actor s s' result p h =
      elim (Bool-cases (is_text (lookup_field "action" payload) "retain")) [
        | inr other ↦ absurd (ground arith)
        | inl retain ↦ elim (Option-cases (non_empty_text (lookup_field "writer_id" payload))) [
          | inl missing ↦ absurd (ground arith)
          | inr (writer_id, e) ↦
              elim (Result-cases (retain_target service item payload writer_id)) [
                | inr (x, q) ↦ absurd (ground arith)
                | inl (bank, q) ↦
                    let (own, fine) =
                      retain_target-IsAuthorized service item payload writer_id bank q in
                    (
                      writer_id,
                      bank,
                      own,
                      fine,
                      approve_retain_to-bank id item writer_id bank
                          (or_null (lookup_field "body" payload)) actor s s' result (ground arith),
                    )
              ]
        ]
      ]

  -- If an approval of a retain request returns, the bank that it reports is one for which the writer
  -- that the row names was authorized when the target was settled: the write had been confirmed there,
  -- or the bank is the one registered for the writer, or the row names it and the writer holds the
  -- grant.
  pub approve-IsAuthorized :
      (id : String) (body : Fields) (actor : AdminActor) (s s' : Stage W) (result : Approved)
      (item : Item)
      → find_where (has_id id) (service.wait s).db.items ≡ some item
      → item.kind ≡ retain_request
      → approve service id body actor s ≡ (ok result, s')
      → (writer_id bank : String) × (item.writer_id ≡ some writer_id)
        × IsAuthorized service item writer_id bank
        × (approved_bank result ≡ some bank)
  unfolding approve
  approve-IsAuthorized id body actor s s' result item there kind h =
      let value = or_null (lookup_field "decrypted" body) in
      elim (Act-cases (require_claim_candidate service id s)) [
        | inr (x, s1, e) ↦ absurd (ground arith)
        | inl (r, s1, e) ↦
            let (found, fits) = require_claim_candidate_found service id s s1 r e in
            let same : r ≡ item = ground arith in
            elim (Result-cases (verify_exact service r value)) [
              | inr (x, bad) ↦ absurd (ground arith)
              | inl (d, good) ↦
                  approve_payload id item d.payload d (label actor) s1 s' result refl (ground arith)
            ]
      ]
