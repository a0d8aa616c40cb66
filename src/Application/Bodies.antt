-- ===== src/Application/Bodies.antt =====
-- The bounds of a body that is read (`_json_body` of memory_router/app.py).
use hindsight_memory_router.Json.Laws.{assert_json_depth-depth, depth}
use hindsight_memory_router.Common.{
  leb, ap, ◌∙◌, arith, ◌≡◌, ◌≤◌, refl, inl, inr, Bool-cases, Option-cases, Result-cases, ℕ, Option,
  none, some, List, [], ◌∷◌, ◌++◌, ltb, ok,
}
use mathlib.Core.Path.{subst}
use hindsight_memory_router.Json.{Json, assert_json_depth}
use hindsight_memory_router.Application.{
  HttpRequest, Runtime, size, read_chunks, parse_bytes, is_longer, limit_of, json_body_or_empty,
  max_json_depth,
}

-- the bytes of the stream, one chunk after another
unfoldable pub stream : List (List ℕ) → List ℕ → List ℕ
stream [] body = body
stream (chunk ∷ chunks) body = stream chunks (body ++ chunk)

read_chunks-stream :
    (limit : ℕ) (chunks : List (List ℕ)) (body bytes : List ℕ)
    → size body ≤ limit
    → read_chunks limit chunks body ≡ ok bytes
    → (bytes ≡ stream chunks body) × (size bytes ≤ limit)
unfolding read_chunks stream
read_chunks-stream limit [] body bytes h e =
    (ground arith, subst (λ x. size x ≤ limit) (ground arith) h)
read_chunks-stream limit (chunk ∷ chunks) body bytes h e =
    elim (Bool-cases (ltb limit (size (body ++ chunk)))) [
      | inl long ↦ absurd (ground arith)
      | inr short ↦
          read_chunks-stream limit chunks (body ++ chunk) bytes (ground arith) (ground arith)
    ]

parse_bytes-loads :
    (loads : List ℕ → Option Json) (bytes : List ℕ) (value : Json)
    → parse_bytes loads bytes ≡ ok (some value)
    → (loads bytes ≡ some value) × (assert_json_depth value max_json_depth ≡ ok tt)
unfolding parse_bytes
parse_bytes-loads loads [] value h = absurd (ground arith)
parse_bytes-loads loads (b ∷ bs) value h = elim (Option-cases (loads (b ∷ bs))) [
  | inl q ↦ absurd (ground arith)
  | inr (v, q) ↦ elim (Result-cases (assert_json_depth v max_json_depth)) [
    | inr (e, d) ↦ absurd (ground arith)
    | inl (u, d) ↦
        let same : v ≡ value = ground arith in
        (q ∙ ap some same, subst (λ x. assert_json_depth x max_json_depth ≡ ok tt) same d)
  ]
]

empty-size : size [] ≡ 0
unfolding size
empty-size = refl

limit_of-most : (most : ℕ) (max_bytes : Option ℕ) → limit_of most max_bytes ≤ most
limit_of-most most none = omega arith
limit_of-most most (some n) = omega arith

is_within-depth : (value : Json) → assert_json_depth value max_json_depth ≡ ok tt → depth value ≤ 64
is_within-depth value h = elim (Bool-cases (leb (depth value) 64)) [
  | inl small ↦ ground arith
  | inr deep ↦ absurd (ground (arith, assert_json_depth-depth value 64))
]

-- A value that is read from a body is that of all the bytes of the stream; these are not more than
-- the limit of the runtime, nor than that of the caller where it gives one, and the value nests at
-- most 64 deep.
pub json_body_or_empty-IsBounded :
    {W : Type 0} (runtime : Runtime W) (http : HttpRequest) (max_bytes : Option ℕ) (value : Json)
    → json_body_or_empty runtime http max_bytes ≡ ok (some value)
    → (runtime.loads (stream http.chunks []) ≡ some value)
      × (size (stream http.chunks []) ≤ runtime.max_body_bytes)
      × (size (stream http.chunks []) ≤ limit_of runtime.max_body_bytes max_bytes)
      × (depth value ≤ 64)
unfolding json_body_or_empty
json_body_or_empty-IsBounded runtime http max_bytes value h =
    let limit = limit_of runtime.max_body_bytes max_bytes in
    elim (Bool-cases (is_longer limit http.content_length)) [
      | inl long ↦ absurd (ground arith)
      | inr short ↦ elim (Result-cases (read_chunks limit http.chunks [])) [
        | inr (e, q) ↦ absurd (ground arith)
        | inl (bytes, q) ↦
            let read =
              read_chunks-stream limit http.chunks [] bytes (ground (arith, empty-size)) q in
            let parsed = parse_bytes-loads runtime.loads bytes value (ground arith) in
            subst
              (λ b.
                (runtime.loads b ≡ some value)
                × (size b ≤ runtime.max_body_bytes)
                × (size b ≤ limit)
                × (depth value ≤ 64))
              read.0
              (
                parsed.0,
                ground (arith, limit_of-most runtime.max_body_bytes max_bytes),
                read.1,
                is_within-depth value parsed.1,
              )
      ]
    ]
