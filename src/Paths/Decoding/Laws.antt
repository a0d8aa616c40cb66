-- ===== src/Paths/Decoding/Laws.antt =====
-- A decoded segment hides no separator and no dot segment, however often it is decoded again
-- (`_decode_path_segment` of memory_router/paths.py).
use hindsight_memory_router.Common.{
  ◌∙◌, ap, arith, ◌≡◌, sym, inl, inr, Bool-cases, Option-cases, Result-cases, String, Bool, true,
  Option, some, ◌==◌, eq_iff, ◌&&◌, ℕ, zero, suc, not, ok,
}
use mathlib.Core.Path.{subst}
use hindsight_memory_router.Paths.Splitting.{no_slash}
use hindsight_memory_router.Paths.Decoding.{is_dots, probe_loop, decode_path_segment}

-- a text that one or more further readings of percent escapes make of another
pub data Unquoted (unquote : String → Option String) : String → String → Type 0 where
  here : (s : String) → Unquoted unquote s s
  step : (s t u : String) → unquote s ≡ some t → Unquoted unquote t u → Unquoted unquote s u

abbrev pub is_plain : String → Bool
is_plain s = no_slash s && not (is_dots s)

module _ (unquote : String → Option String) where
  -- a text that decodes to itself is all that it decodes to
  stays : (p : String) → unquote p ≡ some p → (s u : String) → s ≡ p → Unquoted unquote s u → u ≡ p
  stays p h s u e (here _) = e
  stays p h s u e (step _ t _ q r) = stays p h t u (ground (arith, ap (λ x. unquote x) e)) r

  probe_loop-is_plain :
      (rounds : ℕ) (probe u : String)
      → probe_loop unquote rounds probe ≡ ok tt
      → Unquoted unquote probe u
      → is_plain u ≡ true
  unfolding probe_loop
  probe_loop-is_plain zero probe u h r = absurd (ground arith)
  probe_loop-is_plain (suc rounds) probe u h (here _) = ground arith
  probe_loop-is_plain (suc rounds) probe u h (step _ t _ q rest) =
      let plain : is_plain probe ≡ true = ground arith in
      elim (Bool-cases (t == probe)) [
        | inl e ↦
            let same : t ≡ probe = (eq_iff t probe).0 e in
            let fixed : unquote probe ≡ some probe = q ∙ ap some same in
            subst (λ x. is_plain x ≡ true) (sym (stays probe fixed t u same rest)) plain
        | inr e ↦ probe_loop-is_plain rounds t u (ground arith) rest
      ]

  -- A segment that decodes to a text holds no `/` in it and is not `.` or `..`, and neither is any
  -- text that decoding it again, any number of times, leads to.
  pub decode_path_segment-is_plain :
      (value decoded u : String)
      → decode_path_segment unquote value ≡ ok decoded
      → Unquoted unquote decoded u
      → is_plain u ≡ true
  unfolding decode_path_segment
  decode_path_segment-is_plain value decoded u h r = elim (Option-cases (unquote value)) [
    | inl q ↦ absurd (ground arith)
    | inr (d, q) ↦ elim (Result-cases (probe_loop unquote 8 d)) [
      | inr (e, f) ↦ absurd (ground arith)
      | inl (t, f) ↦
          let same : d ≡ decoded = ground arith in
          probe_loop-is_plain 8 d u f (subst (λ x. Unquoted unquote x u) (sym same) r)
    ]
  ]
