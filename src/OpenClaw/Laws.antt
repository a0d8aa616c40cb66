-- ===== src/OpenClaw/Laws.antt =====
-- What a facade response that is returned has passed (memory_router/openclaw.py).

use hindsight_memory_router.Common.Action.{Act-cases}
use hindsight_memory_router.Json.{Json, object, string, field, end}
use mathlib.Core.Path.{subst}
use hindsight_memory_router.OpenClaw.Forwarding.{
  event, only_scan_limit_findings, validate_safe_request, validate_safe_response, validate_value,
  validate_contract, separates_page_ids, exchange, admit_request, charge, forward, target_bank,
  audit, upstream,
}
use hindsight_memory_router.Common.{
  arith, ◌≡◌, refl, ap, ◌⊎◌, inl, inr, Bool-cases, String, true, Option, none, some, List,
  Result-cases, ok,
}
use hindsight_memory_router.Policy.{Scan, is_safe}
use hindsight_memory_router.Dispatch.{Forward}
use hindsight_memory_router.OpenClaw.{
  Env, forwarded, request_evidence, scan_input, validate_required_query, validate_request_bounds,
}

module _ {W : Type 0} (env : Env W) where
  -- the scan of what the request carries, in some state, finds nothing
  abbrev pub RequestIsSafe : Forward → List (String × String) → Type 0
  RequestIsSafe f query =
      (w : W) × (scan : Scan) × ((env.scan_request (scan_input (request_evidence f query))
          f.route.request_scan f.writer_id query w).0
        ≡ ok scan)
      × (is_safe scan ≡ true)

  -- the scan of a response, in some state, finds nothing
  abbrev pub ResponseIsSafe : Forward → Json → Type 0
  ResponseIsSafe f value =
      (w : W) × (scan : Scan) × ((env.scan_facade_response value f.writer_id
          (separates_page_ids env (some f.route)) w).0
        ≡ ok scan)
      × (is_safe scan ≡ true)

  -- An audit returns whatever the store does.
  audit-returns :
      (writer_id reason : String) (value : Json) (scan : Option Scan) (source : String)
      (bank_id : Option String) (s : W)
      → (s' : W) × (audit env writer_id reason value scan source bank_id s ≡ (ok tt, s'))
  unfolding audit
  audit-returns writer_id reason value scan source bank_id s =
      elim (Act-cases (env.put (event env writer_id reason value scan source bank_id) s)) [
        | inl (a, t, q) ↦ (t, ground arith)
        | inr (e, t, q) ↦ (t, ground arith)
      ]

  validate_safe_request-IsSafe :
      (f : Forward) (query : List (String × String)) (s s' : W)
      → validate_safe_request env f (request_evidence f query) query s ≡ (ok tt, s')
      → RequestIsSafe f query
  unfolding validate_safe_request
  validate_safe_request-IsSafe f query s s' h =
      let evidence = request_evidence f query in
      elim (Act-cases
        (env.scan_request (scan_input evidence) f.route.request_scan f.writer_id query s)) [
          | inr (e, t, q) ↦ absurd (ground arith)
          | inl (scan, t, q) ↦ elim (Bool-cases (is_safe scan)) [
            | inl safe ↦ (s, scan, ap (λ r. r.0) q, safe)
            | inr unsafe ↦
                let silent =
                  audit-returns f.writer_id "openclaw_suspicious_request" (object evidence)
                    (some scan) f.source f.bank_override t in
                absurd (ground (arith, silent.1))
          ]
        ]

  validate_value-IsSafe :
      (f : Forward) (value : Json) (s s' : W)
      → validate_value env f (some value) s ≡ (ok tt, s')
      → ResponseIsSafe f value
  unfolding validate_safe_response
  validate_value-IsSafe f value s s' h =
      elim (Act-cases
        (env.scan_facade_response value f.writer_id (separates_page_ids env (some f.route)) s)) [
          | inr (e, t, q) ↦ absurd (ground arith)
          | inl (scan, t, q) ↦ elim (Bool-cases (only_scan_limit_findings scan)) [
            | inl limit ↦ absurd (ground arith)
            | inr other ↦ elim (Bool-cases (is_safe scan)) [
              | inl safe ↦ (s, scan, ap (λ r. r.0) q, safe)
              | inr unsafe ↦
                  let silent =
                    audit-returns f.writer_id "openclaw_suspicious_provider_response"
                      (object
                        (field "resource" (string f.route.resource) (field "response" value end)))
                      (some scan) f.source f.bank_override t in
                  absurd (ground (arith, silent.1))
            ]
          ]
        ]

  -- where there is a value, its scan finds nothing
  abbrev pub AnswerIsSafe : Forward → Option Json → Type 0
  AnswerIsSafe f value = (value ≡ none) ⊎ ((v : Json) × (value ≡ some v) × ResponseIsSafe f v)

  validate_value-AnswerIsSafe :
      (f : Forward) (value : Option Json) (s s' : W)
      → validate_value env f value s ≡ (ok tt, s')
      → AnswerIsSafe f value
  validate_value-AnswerIsSafe f none s s' h = inl refl
  validate_value-AnswerIsSafe f (some v) s s' h = inr (v, refl, validate_value-IsSafe f v s s' h)

  exchange-AnswerIsSafe :
      (f : Forward) (bank : String) (query : List (String × String)) (value : Option Json)
      (s s' : W)
      → exchange env f bank query s ≡ (ok value, s')
      → AnswerIsSafe f value × (validate_contract env f value ≡ ok tt)
  unfolding exchange
  exchange-AnswerIsSafe f bank query value s s' h =
      elim (Act-cases (env.openclaw_request (upstream env f bank query) s)) [
        | inr (e, t, q) ↦ absurd (ground arith)
        | inl (answer, t, q) ↦ elim (Act-cases (validate_value env f answer t)) [
          | inr (e, u, r) ↦ absurd (ground arith)
          | inl (x, u, r) ↦ elim (Result-cases (validate_contract env f answer)) [
            | inr (e, c) ↦ absurd (ground arith)
            | inl (y, c) ↦
                let same : answer ≡ value = ground arith in
                subst (λ v. AnswerIsSafe f v × (validate_contract env f v ≡ ok tt)) same
                  (validate_value-AnswerIsSafe f answer t u r, c)
          ]
        ]
      ]

  admit_request-IsSafe :
      (f : Forward) (query : List (String × String)) (s s' : W)
      → admit_request env f query s ≡ (ok tt, s')
      → (validate_required_query f.route query ≡ ok tt)
        × (validate_request_bounds env.limits f.route f.body ≡ ok tt)
        × RequestIsSafe f query
  unfolding admit_request
  admit_request-IsSafe f query s s' h =
      elim (Result-cases (validate_required_query f.route query)) [
        | inr (e, q) ↦ absurd (ground arith)
        | inl (x, q) ↦ elim (Result-cases (validate_request_bounds env.limits f.route f.body)) [
          | inr (e, b) ↦ absurd (ground arith)
          | inl (y, b) ↦ elim (Act-cases (charge env f s)) [
            | inr (e, t, c) ↦ absurd (ground arith)
            | inl (z, t, c) ↦ (q, b, validate_safe_request-IsSafe f query t s' (ground arith))
          ]
        ]
      ]

  -- Where a facade request returns a value, its required query parameters were given and its body is
  -- within the limits, a scan of the request found nothing, a scan of the value, if there is one,
  -- found nothing, and the value fulfils the contract of its route.
  pub forward-IsSafe :
      (f : Forward) (value : Option Json) (s s' : W)
      → forward env f s ≡ (ok value, s')
      → (validate_required_query f.route (forwarded f.route.query_params f.query) ≡ ok tt)
        × (validate_request_bounds env.limits f.route f.body ≡ ok tt)
        × RequestIsSafe f (forwarded f.route.query_params f.query)
        × AnswerIsSafe f value
        × (validate_contract env f value ≡ ok tt)
  unfolding forward
  forward-IsSafe f value s s' h =
      let query = forwarded f.route.query_params f.query in
      elim (Act-cases (target_bank env f s)) [
        | inr (e, t, q) ↦ absurd (ground arith)
        | inl (bank, t, q) ↦ elim (Act-cases (admit_request env f query t)) [
          | inr (e, u, r) ↦ absurd (ground arith)
          | inl (x, u, r) ↦
              let admitted = admit_request-IsSafe f query t u r in
              let answered = exchange-AnswerIsSafe f bank query value u s' (ground arith) in
              (admitted.0, admitted.1, admitted.2, answered.0, answered.1)
        ]
      ]
