-- ===== src/Administration/Verification.antt =====
-- What an approval has verified when it returns (memory_router/admin.py).
use hindsight_memory_router.Common.Action.{Act-cases}
use hindsight_memory_router.Administration.{
  runtime_error, value_error, gateway_error, http_error, Result, Stage, Service, AdminActor, exec,
  now, is_claim_candidate, require_claim_candidate, require_status, require_item,
  assert_not_expired,
}
use hindsight_memory_router.Json.{Json, Fields}
use hindsight_memory_router.Common.{
  arith, ◌≡◌, inl, inr, Bool-cases, Option-cases, Result-cases, eq_iff, String, true, some, none,
  ok, err, opt_eq, ◌==◌,
}
use hindsight_memory_router.Common.Table.{find_where}
use hindsight_memory_router.Quarantine.{
  Item, transaction, select_item, has_id, reviewable, is_expired,
}
use hindsight_memory_router.Policy.{lookup_field, or_null}
use hindsight_memory_router.Envelope.{
  Decrypted, parse_decrypted, canonical_decrypted, is_quarantine_id,
}
use hindsight_memory_router.Administration.Approval.{
  Approved, approve, verify_exact, same_metadata, caught,
}

-- the content that came with the request is that of the stored item
pub record IsVerified {W : Type 0} (service : Service W) (item : Item) (value : Json) : Type 0 where
  pub decrypted : Decrypted
  pub content : String
  pub parsed : parse_decrypted service.dumps value ≡ ok decrypted
  pub printed : canonical_decrypted service.dumps decrypted ≡ ok content
  pub hash : service.sha256_hex content ≡ item.sha256
  pub metadata : same_metadata decrypted item ≡ true

caught_ok : (x : Result Decrypted) (d : Decrypted) → caught x ≡ ok d → x ≡ ok d
caught_ok (ok c) d h = h
caught_ok (err (http_error status code)) d h = absurd (ground arith)
caught_ok (err (gateway_error kind upstream status)) d h = absurd (ground arith)
caught_ok (err (value_error t)) d h = absurd (ground arith)
caught_ok (err (runtime_error t)) d h = absurd (ground arith)

verify_exact-IsVerified :
    {W : Type 0} (service : Service W) (item : Item) (value : Json) (d : Decrypted)
    → verify_exact service item value ≡ ok d
    → IsVerified service item value
unfolding verify_exact
verify_exact-IsVerified service item value d h = elim (Bool-cases (opt_eq item.envelope none)) [
  | inl gone ↦ absurd (ground arith)
  | inr there ↦ elim (Result-cases (caught (parse_decrypted service.dumps value))) [
    | inr (x, e) ↦ absurd (ground arith)
    | inl (c, parsed) ↦ elim (Result-cases (canonical_decrypted service.dumps c)) [
      | inr (x, e) ↦ absurd (ground arith)
      | inl (t, printed) ↦ elim (Bool-cases (service.sha256_hex t == item.sha256)) [
        | inr other ↦ absurd (ground arith)
        | inl same ↦ elim (Bool-cases (same_metadata c item)) [
          | inr other ↦ absurd (ground arith)
          | inl fits ↦ record {
            decrypted = c;
            content = t;
            parsed = caught_ok (parse_decrypted service.dumps value) c parsed;
            printed = printed;
            hash = (eq_iff (service.sha256_hex t) item.sha256).0 same;
            metadata = fits;
          }
        ]
      ]
    ]
  ]
]

pub require_item_found :
    {W : Type 0} (service : Service W) (id : String) (s s' : Stage W) (item : Item)
    → require_item service id s ≡ (ok item, s')
    → (is_quarantine_id id ≡ true) × (find_where (has_id id) (service.wait s).db.items ≡ some item)
unfolding require_item exec transaction select_item
require_item_found service id s s' item h = elim (Bool-cases (is_quarantine_id id)) [
  | inr bad ↦ absurd (ground arith)
  | inl valid ↦ elim (Option-cases (find_where (has_id id) (service.wait s).db.items)) [
    | inl missing ↦ absurd (ground arith)
    | inr (r, found) ↦ (valid, ground arith)
  ]
]

assert_not_expired_same :
    {W : Type 0} (service : Service W) (r item : Item) (s s' : Stage W)
    → assert_not_expired service r s ≡ (ok item, s')
    → item ≡ r
unfolding assert_not_expired now
assert_not_expired_same service r item s s' h =
    elim (Bool-cases (is_expired r (service.iso_now s.world).0)) [
      | inl late ↦ absurd (ground arith)
      | inr live ↦ ground arith
    ]

pub require_claim_candidate_found :
    {W : Type 0} (service : Service W) (id : String) (s s' : Stage W) (item : Item)
    → require_claim_candidate service id s ≡ (ok item, s')
    → (find_where (has_id id) (service.wait s).db.items ≡ some item)
      × (is_claim_candidate item.status ≡ true)
unfolding require_claim_candidate require_status
require_claim_candidate_found service id s s' item h =
    elim (Act-cases (require_item service id s)) [
      | inr (x, s1, e) ↦ absurd (ground arith)
      | inl (r, s1, e) ↦
          let (valid, found) = require_item_found service id s s1 r e in
          elim (Bool-cases (is_claim_candidate r.status)) [
            | inr other ↦ absurd (ground arith)
            | inl fits ↦ elim (Bool-cases (reviewable r.status)) [
              | inr claimed ↦ let same : item ≡ r = ground arith in rw same (found, fits)
              | inl open_ ↦
                  let same = assert_not_expired_same service r item s1 s' (ground arith) in
                  rw same (found, fits)
            ]
          ]
    ]

-- An approval that returns was of an item that could be claimed, and the reviewer sent its very
-- content: it parses, the hash of its canonical text is the stored one, and its id, reason, writer
-- and source are those of the row.
pub approve-IsVerified :
    {W : Type 0} (service : Service W) (id : String) (body : Fields) (actor : AdminActor)
    (s s' : Stage W) (result : Approved)
    → approve service id body actor s ≡ (ok result, s')
    → (item : Item) × (find_where (has_id id) (service.wait s).db.items ≡ some item)
      × (is_claim_candidate item.status ≡ true)
      × IsVerified service item (or_null (lookup_field "decrypted" body))
unfolding approve
approve-IsVerified service id body actor s s' result h =
    let value = or_null (lookup_field "decrypted" body) in
    elim (Act-cases (require_claim_candidate service id s)) [
      | inr (x, s1, e) ↦ absurd (ground arith)
      | inl (item, s1, e) ↦
          let (found, fits) = require_claim_candidate_found service id s s1 item e in
          elim (Result-cases (verify_exact service item value)) [
            | inr (x, bad) ↦ absurd (ground arith)
            | inl (d, good) ↦ (item, found, fits, verify_exact-IsVerified service item value d good)
          ]
    ]
