-- ===== src/Policy/Recall/Decide.antt =====
-- One recalled memory: its review state, its scan and its quarantine, and the list of those that are
-- let through (memory_router/policy.py).
use hindsight_memory_router.Policy.{
  concat, Finding, Scan, is_safe, ReviewState, Identity, state_of, forget, contains, discard,
  review_states, Input, Response, Env, Act, ◌>>=◌, ◌>>◌, pure, raise, lift, call, catch,
  quarantine_unavailable, is_too_large, recalled_content_digest, id_of, canonical_json,
  string_projection, text_of, lookup_field, strings, put_field,
}
use hindsight_memory_router.Json.{cons, nil, Items, Json, Fields, string, array, object, field, end}
use hindsight_memory_router.Common.{
  value_error, String, Bool, true, false, Option, none, some, List, [], ◌∷◌, not, ◌&&◌, ◌||◌,
  if◌then◌else◌, Error, Result, ok, err, opt_eq, ◌++◌,
}
use hindsight_memory_router.Quarantine.{
  Status, reviewed_allowed, reviewed_blocked, status_eq, reviewable, in_review, recalled_memory,
  security_event,
}

-- finding.public()
abbrev pub public_entries : List Finding → Items
public_entries [] = nil
public_entries (f ∷ fs) =
    cons (object (field "matched" (string f.matched) (field "reason" (string f.reason) end)))
      (public_entries fs)

abbrev pub no_transformations : List String → Bool
no_transformations [] = true
no_transformations (t ∷ ts) = false

-- _with_transformations; the set of a scan is its sorted list
abbrev pub with_transformations : Fields → Scan → Fields
with_transformations payload scan =
    if no_transformations scan.transformations
    then payload
    else put_field "safety"
        (object (field "transformations" (array (strings scan.transformations)) end)) payload

-- a status under which no recalled memory passes
abbrev pub is_blocked : Status → Bool
is_blocked status = status_eq status reviewed_blocked || in_review status

-- a memory that passed, with its bank and whether an approval of this very content let it pass
pub record Kept : Type 0 where
  pub bank : String
  pub result : Fields
  pub reviewed : Bool

-- state and state.status == REVIEWED_ALLOWED and state.source_content_sha256 == digest
abbrev pub is_approved : Option ReviewState → String → Bool
is_approved none digest = false
is_approved (some state) digest =
    status_eq state.status reviewed_allowed && opt_eq state.source_content_sha256 (some digest)

module _ {W : Type 0} (env : Env W) where
  abbrev pub known : Identity → Act W (Option ReviewState)
  known i s = (ok (state_of i s.states), s)

  abbrev pub invalidate : Identity → Act W (Unit {0})
  invalidate i s = (ok tt, record s { dirty = i ∷ s.dirty })

  abbrev pub recalled_input : String → String → String → String → String → Json → Input
  recalled_input writer source bank id digest payload = record {
    writer_id = some writer;
    source = source;
    kind = recalled_memory;
    reason = "recalled_suspicious_memory";
    bank_id = some bank;
    source_bank = some bank;
    source_memory_id = some id;
    source_content_sha256 = some digest;
    dedupe_key = none;
    payload = payload;
  }

  -- _quarantine_recalled
  unfoldable pub quarantine_recalled :
      String → String → String → Fields → String → Scan → Act W (Unit {0})
  quarantine_recalled writer source bank result digest scan = do
    id ← lift (id_of env result)
    invalidate (bank, id)
    put_id ← call (
        env.put (
          recalled_input writer source bank id digest (
            object (
              with_transformations
                (field "action" (string "recalled_memory")
                  (field "bank_id" (string bank) (field "result" (object result) end)))
                scan))))
    pure tt

  -- a scan, and the quarantine of what is not safe
  unfoldable pub pass_if_safe : String → String → String → Fields → String → Bool → Act W Bool
  pass_if_safe writer source bank result digest stable = do
    scan ← call (env.scan_recalled (object result) stable)
    if is_safe scan
        then pure true
        else do quarantine_recalled writer source bank result digest scan; pure false

  -- a scan whose outcome only goes to the quarantine
  unfoldable pub hold : String → String → String → Fields → String → Act W Bool
  hold writer source bank result digest = do
    scan ← call (env.scan_recalled (object result) false)
    quarantine_recalled writer source bank result digest scan
    pure false

  -- _allow_reviewed_recalled
  unfoldable pub allow_reviewed_recalled :
      String → String → String → Fields → String → ReviewState → Act W Bool
  allow_reviewed_recalled writer source bank result digest state =
      if opt_eq state.source_content_sha256 (some digest)
      then pass_if_safe writer source bank result digest true
      else hold writer source bank result digest

  -- a memory whose review is open: a changed content is quarantined again
  unfoldable pub refuse_pending :
      String → String → String → Fields → String → ReviewState → Act W Bool
  refuse_pending writer source bank result digest state = do
    scan ← call (env.scan_recalled (object result) false)
    if opt_eq state.source_content_sha256 (some digest)
        then pure false
        else do quarantine_recalled writer source bank result digest scan; pure false

  unfoldable pub decide :
      String → String → String → Fields → String → Option ReviewState → Act W Bool
  decide writer source bank result digest none = pass_if_safe writer source bank result digest false
  decide writer source bank result digest (some state) =
      if is_blocked state.status
      then pure false
      else if status_eq state.status reviewed_allowed
      then allow_reviewed_recalled writer source bank result digest state
      else if reviewable state.status
      then refuse_pending writer source bank result digest state
      else pass_if_safe writer source bank result digest false

  -- _allow_recalled, with the review states that its one caller passes
  unfoldable pub allow_recalled : String → String → String → Fields → Act W Bool
  allow_recalled writer source bank result = do
    id ← lift (id_of env result)
    state ← known (bank, id)
    digest ← lift (recalled_content_digest env result)
    decide writer source bank result digest state

  -- _recalled_audit_digest
  unfoldable pub recalled_audit_digest : Fields → String
  recalled_audit_digest result =
      elim (canonical_json env.dumps (string_projection (object result))) [
        | ok t ↦ env.sha256_hex t
        | err e ↦ env.sha256_hex (env.repr (object result))
      ]

  -- str(result.get("id", "unknown"))
  abbrev pub id_or_unknown : Option Json → String
  id_or_unknown none = "unknown"
  id_or_unknown (some v) = text_of env.repr v

  abbrev pub event_input : String → String → String → Option String → String → Json → Input
  event_input writer source reason bank dedupe payload = record {
    writer_id = some writer;
    source = source;
    kind = security_event;
    reason = reason;
    bank_id = bank;
    source_bank = none;
    source_memory_id = none;
    source_content_sha256 = none;
    dedupe_key = some dedupe;
    payload = payload;
  }

  -- _quarantine_oversized_recalled
  unfoldable pub quarantine_oversized_recalled :
      String → String → String → Fields → Act W (Unit {0})
  quarantine_oversized_recalled writer source bank result = do
    let digest = recalled_audit_digest result
    let id = id_or_unknown (lookup_field "id" result)
    scan ← call (env.scan_recalled (object result) false)
    put_id ← call (
        env.put (
          event_input writer source "recalled_suspicious_memory" (some bank)
            (concat ("oversized-recalled:" ∷ bank ∷ ":" ∷ id ∷ ":" ∷ digest ∷ []))
            (object (
              field "action" (string "recalled_memory_too_large") (
                field "bank_id" (string bank) (
                  field "memory_id" (string id) (
                    field "content_sha256" (string digest)
                      (field "findings" (array (public_entries scan.findings)) end))))))))
    pure tt

  -- _quarantine_placeholder_or_degrade
  unfoldable pub quarantine_placeholder_or_degrade :
      String → String → String → Fields → Act W (Unit {0})
  quarantine_placeholder_or_degrade writer source bank result =
      catch (quarantine_oversized_recalled writer source bank result)
        (λ e. if quarantine_unavailable e then pure tt else raise e)

  -- the handlers of `_allow_recalled_or_degrade`
  unfoldable pub degrade : String → String → String → Fields → Error → Act W Bool
  degrade writer source bank result (value_error text) = do
    quarantine_placeholder_or_degrade writer source bank result
    pure false
  degrade writer source bank result e =
      if is_too_large e
      then (do quarantine_placeholder_or_degrade writer source bank result; pure false)
      else if quarantine_unavailable e
      then pure false
      else raise e

  -- _allow_recalled_or_degrade
  unfoldable pub allow_recalled_or_degrade : String → String → String → Fields → Act W Bool
  allow_recalled_or_degrade writer source bank result =
      catch (allow_recalled writer source bank result) (degrade writer source bank result)

  -- _refresh_dirty_review_state
  unfoldable pub refresh_dirty_review_state : Identity → Act W (Unit {0})
  refresh_dirty_review_state i s = if not (contains i s.dirty) then (ok tt, s) else (
    ok tt,
    record s {
      states = review_states (i ∷ []) (env.table s.world) (forget i s.states);
      dirty = discard i s.dirty;
    },
  )

  -- what the loop appends for a memory that passed
  abbrev pub keep : String → Fields → Option ReviewState → Result String → Result (List Kept)
  keep bank result state (err e) = err e
  keep bank result state (ok digest) =
      ok (record { bank = bank; result = result; reviewed = is_approved state digest } ∷ [])

  -- one round of the inner loop of `_allowed_recall_results`
  unfoldable pub keep_result : String → String → String → Fields → Act W (List Kept)
  keep_result writer source bank result = do
    id ← lift (id_of env result)
    refresh_dirty_review_state (bank, id)
    allowed ← allow_recalled_or_degrade writer source bank result
    state ← known (bank, id)
    lift (if allowed then keep bank result state (recalled_content_digest env result) else ok [])

  unfoldable pub keep_results : String → String → String → List Fields → Act W (List Kept)
  keep_results writer source bank [] = pure []
  keep_results writer source bank (result ∷ results) = do
    kept ← keep_result writer source bank result
    rest ← keep_results writer source bank results
    pure (kept ++ rest)

  unfoldable pub keep_responses : String → String → List (String × Response) → Act W (List Kept)
  keep_responses writer source [] = pure []
  keep_responses writer source ((bank, response) ∷ responses) = do
    kept ← keep_results writer source bank response.results
    rest ← keep_responses writer source responses
    pure (kept ++ rest)
