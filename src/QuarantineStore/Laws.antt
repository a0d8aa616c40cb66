-- ===== src/QuarantineStore/Laws.antt =====
-- The ids that the store gives to items are ids that the administration accepts
-- (`_resolve_id` of memory_router/quarantine_store.py, `QUARANTINE_ID_RE` of memory_router/envelope.py).
use hindsight_memory_router.Common.{
  eq_iff, Bool-cases, Result-cases, inr, inl, Option-cases, ok, Result, arith, ◌≡◌, refl, ap, ℕ,
  zero, suc, ◌+◌, String, true, false, ◌==◌, ◌&&◌, ◌||◌,
}
use hindsight_memory_router.Quarantine.{
  recalled_memory, recall_request, retain_request, security_event,
}
use hindsight_memory_router.QuarantineStore.{
  nil, string, cons, array, canonical_json, memory_of, truthy, Kind, deduped_id, Input, resolve_id,
  Json, stamped_id, take_text, drop_text, only_alphanumeric,
}
use mathlib.Core.Path.{subst}
use Prim.Native.String
use Prim.Native.Char.{Char}
use text.Mathlib.TextLemmas.{cons≢nil, cons-append, nil-append}
use hindsight_memory_router.Envelope.{
  one_of, all_of, is_hex, is_id_tail, is_quarantine_id, alphanumeric, lower_hex, other_letters,
}

one_of-append :
    (a b character : String)
    → one_of (String.◌++◌ a b) character ≡ (one_of a character || one_of b character)
unfolding one_of
one_of-append String.[] b c = ap (λ t. one_of t c) (nil-append b)
one_of-append (String.◌∷◌ x a) b c = rw (cons-append x a b) (ground (arith, one_of-append a b c))

all_of-append :
    (allowed a b : String)
    → all_of allowed (String.◌++◌ a b) ≡ (all_of allowed a && all_of allowed b)
unfolding all_of
all_of-append allowed String.[] b = ap (all_of allowed) (nil-append b)
all_of-append allowed (String.◌∷◌ x a) b =
    rw (cons-append x a b) (ground (arith, all_of-append allowed a b))

-- lower-case hexadecimal digits are among the alphanumeric characters
hex_is_alphanumeric :
    (character : String) → one_of lower_hex character ≡ true → one_of alphanumeric character ≡ true
hex_is_alphanumeric c h = ground (arith, one_of-append lower_hex other_letters c)

-- the first of n + 1 + m digits and the others
is_hex-step : (n m : ℕ) (t : String) → is_hex (suc n + m) t ≡ true → is_hex (suc (n + m)) t ≡ true
is_hex-step n m t h =
    let e : suc n + m ≡ suc (n + m) = omega arith in subst (λ k. is_hex k t ≡ true) e h

all_of-take_text :
    (n m : ℕ) (t : String) → is_hex (n + m) t ≡ true → all_of alphanumeric (take_text n t) ≡ true
unfolding is_hex all_of take_text
all_of-take_text zero m t h = refl
all_of-take_text (suc n) m String.[] h = refl
all_of-take_text (suc n) m (String.◌∷◌ c rest) h =
    let h' = is_hex-step n m (String.◌∷◌ c rest) h in
    ground (arith, hex_is_alphanumeric (String.◌∷◌ c String.[]), all_of-take_text n m rest)

is_hex-drop_text :
    (n m : ℕ) (t : String) → is_hex (n + m) t ≡ true → is_hex m (drop_text n t) ≡ true
unfolding is_hex drop_text
is_hex-drop_text zero m t h = ground arith
is_hex-drop_text (suc n) m String.[] h =
    let h' = is_hex-step n m String.[] h in absurd (ground arith)
is_hex-drop_text (suc n) m (String.◌∷◌ c rest) h =
    let h' = is_hex-step n m (String.◌∷◌ c rest) h in ground (arith, is_hex-drop_text n m rest)

all_of-only_alphanumeric : (t : String) → all_of alphanumeric (only_alphanumeric t) ≡ true
unfolding all_of only_alphanumeric
all_of-only_alphanumeric String.[] = refl
all_of-only_alphanumeric (String.◌∷◌ c rest) = ground (arith, all_of-only_alphanumeric rest)

-- the end of an id: the line and the token
is_id_tail-token :
    (token : String) → is_hex 16 token ≡ true → is_id_tail true (String.◌++◌ "_" token) ≡ true
unfolding is_id_tail one_of
is_id_tail-token token h = rw (cons-append "_" "" token, nil-append token) (ground arith)

is_id_tail-seen :
    (word token : String)
    → all_of alphanumeric word ≡ true
    → is_hex 16 token ≡ true
    → is_id_tail true (String.◌++◌ word (String.◌++◌ "_" token)) ≡ true
unfolding all_of is_id_tail
is_id_tail-seen String.[] token w h =
    rw (nil-append (String.◌++◌ "_" token)) (is_id_tail-token token h)
is_id_tail-seen (String.◌∷◌ c rest) token w h =
    rw (cons-append c rest (String.◌++◌ "_" token)) (ground (arith, is_id_tail-seen rest token))

is_id_tail-word :
    (word token : String)
    → all_of alphanumeric word ≡ true
    → (word == "") ≡ false
    → is_hex 16 token ≡ true
    → is_id_tail false (String.◌++◌ word (String.◌++◌ "_" token)) ≡ true
unfolding all_of is_id_tail
is_id_tail-word String.[] token w n h = absurd (ground arith)
is_id_tail-word (String.◌∷◌ c rest) token w n h =
    rw (cons-append c rest (String.◌++◌ "_" token)) (ground (arith, is_id_tail-seen rest token))

-- an id of a word and a token
is_quarantine_id-word :
    (word token : String)
    → all_of alphanumeric word ≡ true
    → (word == "") ≡ false
    → is_hex 16 token ≡ true
    → is_quarantine_id (String.◌++◌ "q_" (String.◌++◌ word (String.◌++◌ "_" token))) ≡ true
unfolding is_quarantine_id
is_quarantine_id-word word token w n h =
    let tail : String = String.◌++◌ word (String.◌++◌ "_" token) in
    rw (cons-append "q" "_" tail, cons-append "_" "" tail, nil-append tail)
      (is_id_tail-word word token w n h)

cons_not_empty : (c : Char) (a b : String) → (String.◌++◌ (String.◌∷◌ c a) b == "") ≡ false
cons_not_empty c a b =
    let whole : String = String.◌∷◌ c (String.◌++◌ a b) in
    rw (cons-append c a b) (elim (Bool-cases (whole == "")) [
      | inr other ↦ other
      | inl same ↦ absurd (cons≢nil ((eq_iff whole "").0 same))
    ])

security_letters : all_of alphanumeric "security" ≡ true
unfolding all_of one_of
security_letters = refl

request_letters : all_of alphanumeric "request" ≡ true
unfolding all_of one_of
request_letters = refl

memory_letters : all_of alphanumeric "memoryv2" ≡ true
unfolding all_of one_of
memory_letters = refl

stamped_id-is_quarantine_id :
    (dumps : Json → Result String) (sha256_hex : String → String) (timestamp token : String)
    → is_hex 16 token ≡ true
    → (only_alphanumeric timestamp == "") ≡ false
    → is_quarantine_id (stamped_id dumps sha256_hex timestamp token) ≡ true
unfolding stamped_id
stamped_id-is_quarantine_id dumps sha256_hex timestamp token random dated =
    is_quarantine_id-word (only_alphanumeric timestamp) token (all_of-only_alphanumeric timestamp)
      dated random

module _ (dumps : Json → Result String) (sha256_hex : String → String)
    (digest : (t : String) → is_hex 64 (sha256_hex t) ≡ true) where
  deduped_id-is_quarantine_id :
      (c : Char) (prefix key : String)
      → all_of alphanumeric (String.◌∷◌ c prefix) ≡ true
      → is_quarantine_id (deduped_id dumps sha256_hex (String.◌∷◌ c prefix) key) ≡ true
  unfolding deduped_id
  deduped_id-is_quarantine_id c prefix key h =
      let d = sha256_hex key in
      let head : String = String.◌++◌ (String.◌∷◌ c prefix) (take_text 48 d) in
      is_quarantine_id-word head (drop_text 48 d)
        (ground (
          arith,
          all_of-append alphanumeric (String.◌∷◌ c prefix) (take_text 48 d),
          all_of-take_text 48 16 d (digest key),
        ))
        (cons_not_empty c prefix (take_text 48 d)) (is_hex-drop_text 48 16 d (digest key))

  by_kind :
      (input : Input) (timestamp token id : String) (kind : Kind)
      → input.kind ≡ kind
      → is_quarantine_id (stamped_id dumps sha256_hex timestamp token) ≡ true
      → resolve_id dumps sha256_hex input timestamp token ≡ ok id
      → is_quarantine_id id ≡ true
  unfolding resolve_id
  by_kind input timestamp token id security_event k stamp h =
      elim (Option-cases (truthy input.dedupe_key)) [
        | inl missing ↦ ground arith
        | inr (key, e) ↦
            let fine = deduped_id-is_quarantine_id "s" "ecurity" key security_letters in
            ground arith
      ]
  by_kind input timestamp token id retain_request k stamp h =
      elim (Option-cases (truthy input.dedupe_key)) [
        | inl missing ↦ ground arith
        | inr (key, e) ↦
            let fine = deduped_id-is_quarantine_id "r" "equest" key request_letters in ground arith
      ]
  by_kind input timestamp token id recall_request k stamp h =
      elim (Option-cases (truthy input.dedupe_key)) [
        | inl missing ↦ ground arith
        | inr (key, e) ↦
            let fine = deduped_id-is_quarantine_id "r" "equest" key request_letters in ground arith
      ]
  by_kind input timestamp token id recalled_memory k stamp h =
      elim (Option-cases (memory_of input)) [
        | inl missing ↦ ground arith
        | inr ((bank, memory), e) ↦
            elim (Result-cases
              (canonical_json dumps (array (cons (string bank) (cons (string memory) nil))))) [
                | inr (x, f) ↦ absurd (ground arith)
                | inl (t, f) ↦
                    let fine = deduped_id-is_quarantine_id "m" "emoryv2" t memory_letters in
                    ground arith
              ]
      ]

  -- Every id that the store gives matches QUARANTINE_ID_RE, so the administration accepts it: if a
  -- digest is 64 lower-case hexadecimal digits and a token 16, and the timestamp has a letter or a
  -- digit.
  pub resolve_id-is_quarantine_id :
      (input : Input) (timestamp token id : String)
      → is_hex 16 token ≡ true
      → (only_alphanumeric timestamp == "") ≡ false
      → resolve_id dumps sha256_hex input timestamp token ≡ ok id
      → is_quarantine_id id ≡ true
  resolve_id-is_quarantine_id input timestamp token id random dated h =
      by_kind input timestamp token id input.kind refl
        (stamped_id-is_quarantine_id dumps sha256_hex timestamp token random dated) h
