-- ===== src/Policy/Recall/Laws.antt =====
-- A recalled memory is let through only by its review state and its scan (memory_router/policy.py).
use hindsight_memory_router.Common.Action.{Act-cases}
use mathlib.Core.Path.{subst}
use hindsight_memory_router.Json.{Fields, object}
use hindsight_memory_router.Common.{
  if◌then◌else◌, arith, ◌≡◌, ◌≢◌, refl, ap, inl, inr, ◌⊎◌, Result-cases, Bool-cases, String, Bool,
  true, false, Option, none, some, List, [], ◌∷◌, Error, http_error, gateway_error, value_error,
  runtime_error, ok, opt_eq,
}
use hindsight_memory_router.Quarantine.{reviewed_allowed, status_eq}
use hindsight_memory_router.Policy.{
  Scan, is_safe, ReviewState, Identity, state_of, contains, discard, forget, review_states, Env,
  Scene, ◌>>=◌, pure, recalled_content_digest, id_of,
}
use hindsight_memory_router.Policy.Recall.Decide.{
  Kept, pass_if_safe, hold, refuse_pending, is_approved, quarantine_recalled,
  allow_reviewed_recalled, decide, allow_recalled, quarantine_placeholder_or_degrade, degrade,
  allow_recalled_or_degrade, refresh_dirty_review_state, keep_result,
}

module _ {W : Type 0} (env : Env W) where
  -- the scan of a memory in a state of the world finds nothing
  abbrev pub Passes : Fields → Bool → W → Type 0
  Passes result stable w =
      (scan : Scan) × ((env.scan_recalled (object result) stable w).0 ≡ ok scan)
      × (is_safe scan ≡ true)

  -- The memory has no review and its scan finds nothing, or this very content was approved and the
  -- scan for approved contents finds nothing.
  abbrev pub Cleared : String → Fields → String → Option ReviewState → W → Type 0
  Cleared bank result digest state w =
      ((state ≡ none) × Passes result false w)
      ⊎ ((is_approved state digest ≡ true) × Passes result true w)

  pass_if_safe-Passes :
      (writer source bank : String) (result : Fields) (digest : String) (stable : Bool)
      (s s' : Scene W)
      → pass_if_safe env writer source bank result digest stable s ≡ (ok true, s')
      → Passes result stable s.world
  unfolding pass_if_safe
  pass_if_safe-Passes writer source bank result digest stable s s' h =
      elim (Act-cases (env.scan_recalled (object result) stable s.world)) [
        | inr (e, w, q) ↦ absurd (ground arith)
        | inl (scan, w, q) ↦ elim (Bool-cases (is_safe scan)) [
          | inl safe ↦ (scan, ap (λ r. r.0) q, safe)
          | inr unsafe ↦
              elim (Act-cases (
                quarantine_recalled env writer source bank result digest scan
                  (record s { world = w }))) [
                    | inr (e, t, f) ↦ absurd (ground arith)
                    | inl (u, t, f) ↦ absurd (ground arith)
                  ]
        ]
      ]

  hold-refuses :
      (writer source bank : String) (result : Fields) (digest : String) (s s' : Scene W)
      → hold env writer source bank result digest s ≢ (ok true, s')
  unfolding hold
  hold-refuses writer source bank result digest s s' h =
      elim (Act-cases (env.scan_recalled (object result) false s.world)) [
        | inr (e, w, q) ↦ ground arith
        | inl (scan, w, q) ↦
            elim (Act-cases (
              quarantine_recalled env writer source bank result digest scan
                (record s { world = w }))) [
                  | inr (e, t, f) ↦ ground arith
                  | inl (u, t, f) ↦ ground arith
                ]
      ]

  refuse_pending-refuses :
      (writer source bank : String) (result : Fields) (digest : String) (state : ReviewState)
      (s s' : Scene W)
      → refuse_pending env writer source bank result digest state s ≢ (ok true, s')
  unfolding refuse_pending
  refuse_pending-refuses writer source bank result digest state s s' h =
      elim (Act-cases (env.scan_recalled (object result) false s.world)) [
        | inr (e, w, q) ↦ ground arith
        | inl (scan, w, q) ↦
            elim (Act-cases (
              quarantine_recalled env writer source bank result digest scan
                (record s { world = w }))) [
                  | inr (e, t, f) ↦ ground arith
                  | inl (u, t, f) ↦ ground arith
                ]
      ]

  decide-Cleared :
      (writer source bank : String) (result : Fields) (digest : String) (state : Option ReviewState)
      (s s' : Scene W)
      → decide env writer source bank result digest state s ≡ (ok true, s')
      → Cleared bank result digest state s.world
  unfolding decide
  decide-Cleared writer source bank result digest none s s' h =
      inl (refl, pass_if_safe-Passes writer source bank result digest false s s' h)
  decide-Cleared writer source bank result digest (some state) s s' h =
      elim (Bool-cases (status_eq state.status reviewed_allowed)) [
        | inl approved ↦ elim (Bool-cases (opt_eq state.source_content_sha256 (some digest))) [
          | inl unchanged ↦ inr (
            ground arith,
            pass_if_safe-Passes writer source bank result digest true s s'
                (unfold allow_reviewed_recalled in ground arith),
          )
          | inr changed ↦ absurd (
              hold-refuses writer source bank result digest s s'
                (unfold allow_reviewed_recalled in ground arith))
        ]
        | inr other ↦
            absurd
              (refuse_pending-refuses writer source bank result digest state s s' (ground arith))
      ]

  allow_recalled-Cleared :
      (writer source bank : String) (result : Fields) (id : String) (s s' : Scene W)
      → id_of env result ≡ ok id
      → allow_recalled env writer source bank result s ≡ (ok true, s')
      → (digest : String) × (recalled_content_digest env result ≡ ok digest)
        × Cleared bank result digest (state_of (bank, id) s.states) s.world
  unfolding allow_recalled
  allow_recalled-Cleared writer source bank result id s s' i h =
      elim (Result-cases (recalled_content_digest env result)) [
        | inr (e, q) ↦ absurd (ground arith)
        | inl (digest, q) ↦ (
          digest,
          q,
          decide-Cleared writer source bank result digest (state_of (bank, id) s.states) s s'
              (ground arith),
        )
      ]

  placeholder_refuses :
      (writer source bank : String) (result : Fields) (s s' : Scene W)
      → (quarantine_placeholder_or_degrade env writer source bank result >>= λ u. pure false) s
        ≢ (ok true, s')
  placeholder_refuses writer source bank result s s' h =
      elim (Act-cases (quarantine_placeholder_or_degrade env writer source bank result s)) [
        | inr (e, t, q) ↦ ground arith
        | inl (u, t, q) ↦ ground arith
      ]

  degrade-refuses :
      (writer source bank : String) (result : Fields) (e : Error) (s s' : Scene W)
      → degrade env writer source bank result e s ≢ (ok true, s')
  unfolding degrade
  degrade-refuses writer source bank result (value_error text) s s' h =
      placeholder_refuses writer source bank result s s' h
  degrade-refuses writer source bank result (http_error status code) s s' h =
      ground (arith, placeholder_refuses writer source bank result s s')
  degrade-refuses writer source bank result (gateway_error kind upstream status) s s' h =
      ground arith
  degrade-refuses writer source bank result (runtime_error text) s s' h = ground arith

  allow_recalled_or_degrade-Cleared :
      (writer source bank : String) (result : Fields) (id : String) (s s' : Scene W)
      → id_of env result ≡ ok id
      → allow_recalled_or_degrade env writer source bank result s ≡ (ok true, s')
      → (digest : String) × (recalled_content_digest env result ≡ ok digest)
        × Cleared bank result digest (state_of (bank, id) s.states) s.world
  unfolding allow_recalled_or_degrade
  allow_recalled_or_degrade-Cleared writer source bank result id s s' i h =
      elim (Act-cases (allow_recalled env writer source bank result s)) [
        | inr (e, t, q) ↦ absurd (degrade-refuses writer source bank result e t s' (ground arith))
        | inl (b, t, q) ↦ allow_recalled-Cleared writer source bank result id s s' i (ground arith)
      ]

  -- the scene in which an identity that was invalidated has been read from the table again
  abbrev pub refreshed : Identity → Scene W → Scene W
  refreshed i s =
      if contains i s.dirty
      then record s {
        states = review_states (i ∷ []) (env.table s.world) (forget i s.states);
        dirty = discard i s.dirty;
      }
      else s

  refresh-refreshed :
      (i : Identity) (s : Scene W) → refresh_dirty_review_state env i s ≡ (ok tt, refreshed i s)
  unfolding refresh_dirty_review_state
  refresh-refreshed i s = elim (Bool-cases (contains i s.dirty)) [
    | inr clean ↦ rw clean refl
    | inl dirty ↦ rw dirty refl
  ]

  -- The memory `result` of a bank, decided in the scene `s`, is let through as `k`, which leaves the
  -- scene `t`: by the review state of its identity in `s`, read again if it was invalidated, the
  -- memory was cleared in the world of `s`; and `k` says whether the identity is approved in `t`.
  pub record IsCleared (bank : String) (result : Fields) (s : Scene W) (k : Kept) (t : Scene W)
      : Type 0 where
    pub id : String
    pub digest : String
    pub identified : id_of env result ≡ ok id
    pub digested : recalled_content_digest env result ≡ ok digest
    pub cleared :
        Cleared bank result digest (state_of (bank, id) (refreshed (bank, id) s).states) s.world
    pub as_kept : k ≡ record {
      bank = bank;
      result = result;
      reviewed = is_approved (state_of (bank, id) t.states) digest;
    }

  refreshed-world : (i : Identity) (s : Scene W) → (refreshed i s).world ≡ s.world
  refreshed-world i s = elim (Bool-cases (contains i s.dirty)) [
    | inr clean ↦ rw clean refl
    | inl dirty ↦ rw dirty refl
  ]

  pub keep_result-IsCleared :
      (writer source bank : String) (result : Fields) (kept : List Kept) (s s' : Scene W)
      → keep_result env writer source bank result s ≡ (ok kept, s')
      → (kept ≡ []) ⊎ ((k : Kept) × (kept ≡ k ∷ []) × IsCleared bank result s k s')
  unfolding keep_result
  keep_result-IsCleared writer source bank result kept s s' h =
      elim (Result-cases (id_of env result)) [
        | inr (e, q) ↦ absurd (ground arith)
        | inl (id, q) ↦
            let t : Scene W = refreshed (bank, id) s in
            let fresh = refresh-refreshed (bank, id) s in
            elim (Act-cases (allow_recalled_or_degrade env writer source bank result t)) [
              | inr (e, u, a) ↦ absurd (ground arith)
              | inl (false, u, a) ↦ inl (ground arith)
              | inl (true, u, a) ↦
                  let (digest, d, cleared) =
                    allow_recalled_or_degrade-Cleared writer source bank result id t u q a in
                  let one : Kept = record {
                    bank = bank;
                    result = result;
                    reviewed = is_approved (state_of (bank, id) u.states) digest;
                  } in
                  let last : u ≡ s' = ground arith in
                  inr (
                    one,
                    ground arith,
                    record {
                      id = id;
                      digest = digest;
                      identified = q;
                      digested = d;
                      cleared =
                          subst (Cleared bank result digest (state_of (bank, id) t.states))
                            (refreshed-world (bank, id) s) cleared;
                      as_kept =
                          ap
                            (λ v. record {
                              bank = bank;
                              result = result;
                              reviewed = is_approved (state_of (bank, id) v.states) digest;
                            })
                            last;
                    },
                  )
            ]
      ]
