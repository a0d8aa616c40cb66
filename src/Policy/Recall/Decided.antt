-- ===== src/Policy/Recall/Decided.antt =====
-- The memories of a recall are decided one after the other (memory_router/policy.py).
use hindsight_memory_router.Common.Action.{Act-cases}
use mathlib.Core.Path.{subst}
use hindsight_memory_router.Json.{Fields}
use hindsight_memory_router.Common.{arith, ◌≡◌, inl, inr, String, List, [], ◌∷◌, ◌++◌, ok}
use hindsight_memory_router.Policy.{Response, Env, Scene}
use hindsight_memory_router.Policy.Recall.Decide.{Kept, keep_result, keep_results, keep_responses}
use hindsight_memory_router.Policy.Recall.Laws.{IsCleared, keep_result-IsCleared}

module _ {W : Type 0} (env : Env W) (writer source : String) where
  -- The memories of a bank, decided one after the other, each in the scene that the one before has
  -- left: which are kept, and the scene after the last.
  pub data Decided (bank : String) : List Fields → Scene W → List Kept → Scene W → Type 0 where
    none_left : {s : Scene W} → Decided bank [] s [] s
    held_back :
        {result : Fields} {results : List Fields} {s t s' : Scene W} {kept : List Kept}
        → keep_result env writer source bank result s ≡ (ok [], t)
        → Decided bank results t kept s'
        → Decided bank (result ∷ results) s kept s'
    let_through :
        {result : Fields} {results : List Fields} {s t s' : Scene W} {kept : List Kept} {k : Kept}
        → keep_result env writer source bank result s ≡ (ok (k ∷ []), t)
        → IsCleared env bank result s k t
        → Decided bank results t kept s'
        → Decided bank (result ∷ results) s (k ∷ kept) s'

  -- the same for the answers of the banks, in their order
  pub data AllDecided : List (String × Response) → Scene W → List Kept → Scene W → Type 0 where
    no_bank_left : {s : Scene W} → AllDecided [] s [] s
    next_bank :
        {bank : String} {response : Response} {responses : List (String × Response)}
        {s t s' : Scene W} {kept rest : List Kept}
        → Decided bank response.results s kept t
        → AllDecided responses t rest s'
        → AllDecided ((bank, response) ∷ responses) s (kept ++ rest) s'

  keep_results-Decided :
      (bank : String) (results : List Fields) (kept : List Kept) (s s' : Scene W)
      → keep_results env writer source bank results s ≡ (ok kept, s')
      → Decided bank results s kept s'
  unfolding keep_results
  keep_results-Decided bank [] kept s s' h =
      let none_kept : [] ≡ kept = ground arith in
      let same : s ≡ s' = ground arith in
      subst (λ t. Decided bank [] s kept t) same
        (subst (λ ks. Decided bank [] s ks s) none_kept none_left)
  keep_results-Decided bank (result ∷ results) kept s s' h =
      elim (Act-cases (keep_result env writer source bank result s)) [
        | inr (e, t, q) ↦ absurd (ground arith)
        | inl (first, t, q) ↦ elim (Act-cases (keep_results env writer source bank results t)) [
          | inr (e, u, r) ↦ absurd (ground arith)
          | inl (rest, u, r) ↦
              let same : u ≡ s' = ground arith in
              let later : Decided bank results t rest s' =
                subst (Decided bank results t rest) same
                  (keep_results-Decided bank results rest t u r) in
              elim (keep_result-IsCleared env writer source bank result first s t q) [
                | inl e ↦
                    let all_kept : rest ≡ kept = ground arith in
                    subst (λ ks. Decided bank (result ∷ results) s ks s') all_kept
                      (held_back (ground arith) later)
                | inr (k, e, cleared) ↦
                    let all_kept : k ∷ rest ≡ kept = ground arith in
                    subst (λ ks. Decided bank (result ∷ results) s ks s') all_kept
                      (let_through (ground arith) cleared later)
              ]
        ]
      ]

  pub keep_responses-AllDecided :
      (responses : List (String × Response)) (kept : List Kept) (s s' : Scene W)
      → keep_responses env writer source responses s ≡ (ok kept, s')
      → AllDecided responses s kept s'
  unfolding keep_responses
  keep_responses-AllDecided [] kept s s' h =
      let none_kept : [] ≡ kept = ground arith in
      let same : s ≡ s' = ground arith in
      subst (λ t. AllDecided [] s kept t) same
        (subst (λ ks. AllDecided [] s ks s) none_kept no_bank_left)
  keep_responses-AllDecided ((bank, response) ∷ responses) kept s s' h =
      elim (Act-cases (keep_results env writer source bank response.results s)) [
        | inr (e, t, q) ↦ absurd (ground arith)
        | inl (first, t, q) ↦ elim (Act-cases (keep_responses env writer source responses t)) [
          | inr (e, u, r) ↦ absurd (ground arith)
          | inl (rest, u, r) ↦
              let all_kept : first ++ rest ≡ kept = ground arith in
              let same : u ≡ s' = ground arith in
              subst (λ ks. AllDecided ((bank, response) ∷ responses) s ks s') all_kept
                (subst (AllDecided ((bank, response) ∷ responses) s (first ++ rest)) same (
                  next_bank (keep_results-Decided bank response.results first s t q)
                    (keep_responses-AllDecided responses rest t u r)))
        ]
      ]
