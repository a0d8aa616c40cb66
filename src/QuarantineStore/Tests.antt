-- ===== src/QuarantineStore/Tests.antt =====
-- An id at one request, and a digest that is always the same.
use hindsight_memory_router.Json.{Json, null}
use hindsight_memory_router.Common.{◌≡◌, refl, String, true, none, some, Result, ok}
use hindsight_memory_router.Quarantine.{retain_request}
use hindsight_memory_router.Policy.{Input}
use hindsight_memory_router.Envelope.{one_of, is_hex, is_quarantine_id}
use hindsight_memory_router.QuarantineStore.{
  take_text, drop_text, only_alphanumeric, resolve_id, deduped_id,
}
use hindsight_memory_router.QuarantineStore.Laws.{resolve_id-is_quarantine_id}

abbrev request : Input
request = record {
  writer_id = some "agent";
  source = "openclaw";
  kind = retain_request;
  reason = "suspicious_content";
  bank_id = some "bank";
  source_bank = none;
  source_memory_id = none;
  source_content_sha256 = none;
  dedupe_key = some "k";
  payload = null;
}

printed : Json → Result String
printed v = ok "json"

digest_of : String → String
digest_of t = "0123456789abcdef0123456789abcdef0123456789abcdef0123456789abcdef"

digest_of-is_hex : (t : String) → is_hex 64 (digest_of t) ≡ true
unfolding digest_of is_hex one_of
digest_of-is_hex t = refl

abbrev id : String
id = "q_request0123456789abcdef0123456789abcdef0123456789abcdef_0123456789abcdef"

resolved :
    resolve_id printed digest_of request "2026-01-01T00:00:00.000Z" "0123456789abcdef" ≡ ok id
unfolding resolve_id deduped_id digest_of take_text drop_text
resolved = refl

resolve_id-is_quarantine_id_example : is_quarantine_id id ≡ true
unfolding is_hex one_of only_alphanumeric
resolve_id-is_quarantine_id_example =
    resolve_id-is_quarantine_id printed digest_of digest_of-is_hex request
      "2026-01-01T00:00:00.000Z" "0123456789abcdef" id refl refl resolved
