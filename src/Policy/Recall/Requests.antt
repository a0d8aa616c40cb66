-- ===== src/Policy/Recall/Requests.antt =====
-- The quarantine of a recall request, and what happens when that fails (memory_router/policy.py,
-- `request_dedupe_key` of memory_router/dedupe.py).
use hindsight_memory_router.Json.{Json, Fields, string, array, object, field, end}
use hindsight_memory_router.Common.{
  String, Option, none, some, List, [], ◌∷◌, if◌then◌else◌, Result, ok, and_then,
}
use hindsight_memory_router.Quarantine.{Kind, recall_request, retain_request}
use hindsight_memory_router.Policy.{
  Scan, Finding, Env, Act, ◌>>=◌, pure, raise, lift, call, catch, quarantine_unavailable,
  is_too_large, canonical_json, audit_digest, concat, sorted, joined, optional_text,
}
use hindsight_memory_router.Policy.Recall.Decide.{public_entries, with_transformations, event_input}

-- "retain_request" and the other values of `kind`
abbrev pub kind_text : Kind → String
kind_text retain_request = "retain_request"
kind_text recall_request = "recall_request"
kind_text Kind.recalled_memory = "recalled_memory"
kind_text Kind.security_event = "security_event"

-- `scan` of a request that was scanned
abbrev pub transformed : Fields → Option Scan → Fields
transformed payload none = payload
transformed payload (some scan) = with_transformations payload scan

abbrev pub findings_of : Option Scan → List Finding
findings_of none = []
findings_of (some scan) = scan.findings

-- ",".join(sorted(target_banks)) if target_banks else None
abbrev pub joined_banks : List String → Option String
joined_banks [] = none
joined_banks (b ∷ bs) = some (joined "," (sorted (b ∷ bs)))

-- target_banks[0] if target_banks and len(target_banks) == 1 else None
abbrev pub only_bank : List String → Option String
only_bank (b ∷ []) = some b
only_bank _ = none

module _ {W : Type 0} (env : Env W) where
  -- request_dedupe_key
  unfoldable pub request_dedupe_key : Kind → String → Option String → Json → Result String
  request_dedupe_key kind writer target payload =
      and_then
        (canonical_json env.dumps (
          object (
            field "kind" (string (kind_text kind)) (
              field "writer_id" (string writer)
                (field "target" (optional_text target) (field "payload" payload end))))))
        (λ t. ok (env.sha256_hex t))

  abbrev pub recall_payload : String → Json → Fields
  recall_payload writer body =
      field "action" (string "recall") (field "writer_id" (string writer) (field "body" body end))

  -- what `_quarantine_recall_or_degrade` tries
  unfoldable pub quarantine_recall :
      String → String → String → Json → List String → Option Scan → Act W (Unit {0})
  quarantine_recall writer source reason body banks scan = do
    key ← lift (
        request_dedupe_key recall_request writer (joined_banks banks)
          (object (recall_payload writer body)))
    put_id ← call (
        env.put record {
          writer_id = some writer;
          source = source;
          kind = recall_request;
          reason = reason;
          bank_id = only_bank banks;
          source_bank = none;
          source_memory_id = none;
          source_content_sha256 = none;
          dedupe_key = some key;
          payload = object (transformed (recall_payload writer body) scan);
        })
    pure tt

  -- _quarantine_oversized_recall_request
  unfoldable pub quarantine_oversized_recall_request :
      String → String → String → Json → Option Scan → Option String → Act W (Unit {0})
  quarantine_oversized_recall_request writer source reason body scan bank = do
    let digest = audit_digest env body
    put_id ← call (
        env.put (
          event_input env writer source reason bank
            (concat ("oversized-recall:" ∷ writer ∷ ":" ∷ reason ∷ ":" ∷ digest ∷ []))
            (object (
              field "action" (string "recall_request_too_large") (
                field "writer_id" (string writer) (
                  field "content_sha256" (string digest)
                    (field "findings" (array (public_entries (findings_of scan))) end)))))))
    pure tt

  -- _quarantine_oversized_recall_or_degrade
  unfoldable pub quarantine_oversized_recall_or_degrade :
      String → String → String → Json → List String → Option Scan → Act W (Unit {0})
  quarantine_oversized_recall_or_degrade writer source reason body banks scan =
      catch (quarantine_oversized_recall_request writer source reason body scan (only_bank banks))
        (λ e. if quarantine_unavailable e then pure tt else raise e)

  -- _quarantine_recall_or_degrade; `target_banks` that is None is the empty list
  unfoldable pub quarantine_recall_or_degrade :
      String → String → String → Json → List String → Option Scan → Act W (Unit {0})
  quarantine_recall_or_degrade writer source reason body banks scan =
      catch (quarantine_recall writer source reason body banks scan) (λ e.
        if is_too_large e
        then quarantine_oversized_recall_or_degrade writer source reason body banks scan
        else if quarantine_unavailable e
        then pure tt
        else raise e)
