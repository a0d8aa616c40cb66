-- ===== src/Policy/Recall/Bounds.antt =====
-- What a recall answers (memory_router/policy.py).
use hindsight_memory_router.Common.Action.{Act-cases}
use hindsight_memory_router.Policy.Recall.Answer.{
  aggregate_input, Answer, combined, reviewed_positions, recall_from_banks, allowed_recall_results,
  merge_fields, map_fields, allow_recall_aggregate, empty_answer, gather_answer,
  recall_from_read_banks, identities, try_put,
}
use hindsight_memory_router.Json.{Json}
use hindsight_memory_router.Common.{
  arith, ◌≡◌, ◌≢◌, ap, inl, inr, ◌⊎◌, Bool-cases, ℕ, String, true, false, Option, some, List, [],
  ok,
}
use hindsight_memory_router.Policy.{
  Input, review_states, Scan, is_safe, Response, Env, Scene, ◌>>=◌, pure,
}
use hindsight_memory_router.Policy.Recall.Requests.{quarantine_recall_or_degrade, only_bank}
use hindsight_memory_router.Policy.Recall.Decided.{AllDecided, keep_responses-AllDecided}
use mathlib.Core.Path.{subst}

module _ {W : Type 0} (env : Env W) where
  try_put_total :
      (input : Input) (s : Scene W) → (s' : Scene W) × (try_put env input s ≡ (ok tt, s'))
  unfolding try_put
  try_put_total input s = elim (Act-cases (env.put input s.world)) [
    | inl (id, w, q) ↦ (record s { world = w }, ground arith)
    | inr (e, w, q) ↦ (record s { world = w }, ground arith)
  ]

  refuse_after_put :
      (input : Input) (s s' : Scene W) → (try_put env input >>= λ u. pure false) s ≢ (ok true, s')
  refuse_after_put input s s' h = let (t, e) = try_put_total input s in ground arith

  allow_recall_aggregate-scan :
      (writer source : String) (answer : Answer) (bank : Option String) (s s' : Scene W)
      → allow_recall_aggregate env writer source answer bank s ≡ (ok true, s')
      → (scan : Scan) × ((env.scan_aggregate
            (combined answer)
            (reviewed_positions 0 answer.results)
            s.world).0
          ≡ ok scan)
        × (is_safe scan ≡ true)
  unfolding allow_recall_aggregate
  allow_recall_aggregate-scan writer source answer bank s s' h =
      elim (Act-cases
        (env.scan_aggregate (combined answer) (reviewed_positions 0 answer.results) s.world)) [
          | inr (e, w, q) ↦ absurd (ground arith)
          | inl (scan, w, q) ↦ elim (Bool-cases (is_safe scan)) [
            | inl safe ↦ (scan, ap (λ r. r.0) q, safe)
            | inr unsafe ↦ absurd (
                refuse_after_put (aggregate_input env writer source answer bank scan)
                  (record s { world = w }) s' (ground arith))
          ]
        ]

  -- The scene in which the decisions begin: the review states of all recalled identities, read from
  -- the table.
  abbrev pub read_scene : List (String × Response) → Scene W → Scene W
  read_scene responses t = record t {
    states = review_states (identities env responses) (env.table t.world) [];
    dirty = [];
  }

  module _ (writer source : String) (banks : List String) (body : Json) where
    -- An answer that was gathered for a request in the scene `s`: what the banks answered was
    -- decided memory by memory, from the review states of the table, and the whole was scanned.
    pub record IsGathered (answer : Answer) (s : Scene W) : Type 0 where
      pub responses : List (String × Response)
      pub read : Scene W
      pub asked : recall_from_banks env banks body s ≡ (ok (responses, answer.failed_banks), read)
      pub decided : Scene W
      pub kept :
          AllDecided env writer source responses (read_scene responses read) answer.results decided
      pub merged : Scene W
      pub maps :
          merge_fields env writer source map_fields responses decided ≡ (ok answer.maps, merged)
      pub whole : Scan
      pub scanned :
          (env.scan_aggregate
            (combined answer)
            (reviewed_positions 0 answer.results)
            merged.world).0
          ≡ ok whole
      pub whole_safe : is_safe whole ≡ true

    -- an answer with nothing in it
    abbrev pub IsEmpty : Answer → Type 0
    IsEmpty answer = (failed : ℕ) × (answer ≡ empty_answer env failed)

    -- The answer holds nothing, or the request was charged for and scanned, found safe, and the answer
    -- gathered in the world after its scan.
    abbrev pub Answered : Answer → Scene W → Type 0
    Answered answer s =
        IsEmpty answer
        ⊎ ((charged asked : W) × (scan : Scan) × (env.consume_recall writer s.world
              ≡ (ok tt, charged))
            × (env.scan_request body charged ≡ (ok scan, asked))
            × (is_safe scan ≡ true)
            × IsGathered answer (record s { world = asked }))

    gather_answer-IsGathered :
        (answer : Answer) (s s' : Scene W)
        → gather_answer env writer source banks body s ≡ (ok answer, s')
        → IsEmpty answer ⊎ IsGathered answer s
    unfolding gather_answer
    gather_answer-IsGathered answer s s' h = elim (Act-cases (recall_from_banks env banks body s)) [
      | inr (e, t, q) ↦ absurd (ground arith)
      | inl ((responses, failed), t, q) ↦
          elim (Act-cases (allowed_recall_results env writer source responses t)) [
            | inr (e, u, r) ↦ absurd (ground arith)
            | inl (kept, u, r) ↦
                elim (Act-cases (merge_fields env writer source map_fields responses u)) [
                  | inr (e, v, f) ↦ absurd (ground arith)
                  | inl (maps, v, f) ↦
                      let answered : Answer = record {
                        results = kept;
                        maps = maps;
                        failed_banks = failed;
                      } in
                      let decisions =
                        keep_responses-AllDecided env writer source responses kept
                          (read_scene responses t) u
                          (unfold allowed_recall_results in ground arith) in
                      elim (Act-cases
                        (allow_recall_aggregate env writer source answered (only_bank banks) v)) [
                          | inr (e, x, g) ↦ absurd (ground arith)
                          | inl (true, x, g) ↦
                              let e : answered ≡ answer = ground arith in
                              let (whole, scanned, safe) =
                                allow_recall_aggregate-scan writer source answered (only_bank banks)
                                  v x g in
                              inr (
                                subst (λ a. IsGathered a s) e
                                  record {
                                    responses = responses;
                                    read = t;
                                    asked = q;
                                    decided = u;
                                    kept = decisions;
                                    merged = v;
                                    maps = f;
                                    whole = whole;
                                    scanned = scanned;
                                    whole_safe = safe;
                                  })
                          | inl (false, x, g) ↦ inl (failed, ground arith)
                        ]
                ]
          ]
    ]

    -- What a recall answers, if it does not raise: nothing at all, or, after a charge and a safe scan
    -- of the request, the memories that were let through from the answers of the banks. Each was
    -- decided in the scene that the ones before left, starting from the review states of the table: it
    -- has no review and a clean scan, or an approval of this very content and a clean scan for
    -- approved contents, by a state that is read again where an earlier memory invalidated it. The
    -- answer's scan as a whole, with the positions of the approved memories, was clean.
    pub recall_from_read_banks-Answered :
        (answer : Answer) (s s' : Scene W)
        → recall_from_read_banks env writer banks body source s ≡ (ok answer, s')
        → Answered answer s
    unfolding recall_from_read_banks
    recall_from_read_banks-Answered answer s s' h =
        elim (Act-cases (env.consume_recall writer s.world)) [
          | inr (e, w, q) ↦ absurd (ground arith)
          | inl (tt, w, q) ↦ elim (Act-cases (env.scan_request body w)) [
            | inr (e, w', r) ↦ absurd (ground arith)
            | inl (scan, w', r) ↦
                let t : Scene W = record s { world = w' } in
                elim (Bool-cases (is_safe scan)) [
                  | inl safe ↦ elim (gather_answer-IsGathered answer t s' (ground arith)) [
                    | inl empty ↦ inl empty
                    | inr gathered ↦ inr (w, w', scan, q, r, safe, gathered)
                  ]
                  | inr unsafe ↦
                      elim (Act-cases (
                        quarantine_recall_or_degrade env writer source "suspicious_query" body banks
                          (some scan) t)) [
                            | inr (e, u, f) ↦ absurd (ground arith)
                            | inl (tt, u, f) ↦ inl (0, ground arith)
                          ]
                ]
          ]
        ]
