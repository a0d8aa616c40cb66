-- ===== src/OpenClaw/Filled.antt =====
-- The segments of the path that `_facade_path` makes of a route, a bank and parameters
-- (memory_router/openclaw.py).
use hindsight_memory_router.Common.{
  eq_iff, ==_self, arith, ◌≡◌, refl, sym, ◌∙◌, ap, inl, inr, Bool-cases, String, true, false, List,
  [], ◌∷◌, ◌==◌,
}
use hindsight_memory_router.Paths.Splitting.{no_slash-empty, no_slash, no_slashes, cut-join}
use Prim.Native.Char.{Char}
use Prim.Native.String
use text.Mathlib.TextLemmas.{cons-ne-nil, append_assoc, append-nil, nil-append, cons-append}
use hindsight_memory_router.Common.Action.{}
use hindsight_memory_router.Facade.{
  Segment, literal, parameter, FacadeRoute, join, join_more, cut, split_path,
}
use hindsight_memory_router.Facade.Table.{}
use hindsight_memory_router.Paths.{is_dot_segment}
use hindsight_memory_router.Principals.{lookup}
use hindsight_memory_router.Dispatch.{}
use hindsight_memory_router.OpenClaw.{facade_path, filled, after, query_text, param}
use hindsight_memory_router.OpenClaw.Segments.{
  before_query, no_question, is_relative, follows, no_dots_in, plain_literals, starts_with_word,
  is_template, no_question-append, before_query-append, before_query-query_text,
}

-- urllib.parse.quote with safe="" leaves neither a slash nor a question mark, and makes a dot segment of
-- nothing but "." and ".."
abbrev pub IsQuote : (String → String) → Type 0
IsQuote quote =
    (t : String)
    → (no_slash (quote t) ≡ true)
      × (no_question (quote t) ≡ true)
      × (is_relative t ≡ false → is_dot_segment (quote t) ≡ false)

param-is_relative :
    (params : List (String × String)) (name : String)
    → no_dots_in params ≡ true
    → is_relative (param params name) ≡ false
unfolding no_dots_in lookup
param-is_relative [] name h = refl
param-is_relative ((key, value) ∷ params) name h = elim (Bool-cases (key == name)) [
  | inl e ↦ ground arith
  | inr e ↦ ground (arith, param-is_relative params name)
]

cons-not_empty : (c : Char) (s : String) → (String.◌∷◌ c s == "") ≡ false
cons-not_empty c s = elim (Bool-cases (String.◌∷◌ c s == "")) [
  | inl e ↦ absurd (cons-ne-nil c s ((eq_iff (String.◌∷◌ c s) "").0 e))
  | inr e ↦ e
]

-- the literals before the bank are a text
base-join :
    (q : String) (ps : List String)
    → String.◌++◌ "" (join_more "/" ("v1" ∷ "default" ∷ "banks" ∷ q ∷ ps))
      ≡ String.◌++◌ (String.◌++◌ "/v1/default/banks/" q) (join_more "/" ps)
base-join q ps =
    let rest = join_more "/" ps in
    let bank = String.◌++◌ "/" (String.◌++◌ q rest) in
    let banks = String.◌++◌ "/" (String.◌++◌ "banks" bank) in
    let default = String.◌++◌ "/" (String.◌++◌ "default" banks) in
    nil-append (String.◌++◌ "/" (String.◌++◌ "v1" default))
    ∙ sym (append_assoc "/" "v1" default)
    ∙ sym (append_assoc "/v1" "/" (String.◌++◌ "default" banks))
    ∙ sym (append_assoc "/v1/" "default" banks)
    ∙ sym (append_assoc "/v1/default" "/" (String.◌++◌ "banks" bank))
    ∙ sym (append_assoc "/v1/default/" "banks" bank)
    ∙ sym (append_assoc "/v1/default/banks" "/" (String.◌++◌ q rest))
    ∙ sym (append_assoc "/v1/default/banks/" q rest)

base-no_question :
    (q : String) → no_question q ≡ true → no_question (String.◌++◌ "/v1/default/banks/" q) ≡ true
unfolding no_question
base-no_question q h = ground (arith, no_question-append "/v1/default/banks/" q)

base-no_slashes :
    (q : String) (ps : List String)
    → no_slash q ≡ true
    → no_slashes ps ≡ true
    → no_slashes ("v1" ∷ "default" ∷ "banks" ∷ q ∷ ps) ≡ true
unfolding no_slashes no_slash
base-no_slashes q ps h k = ground arith

pub base-follows :
    (q : String) (template : List Segment) (ps : List String)
    → is_dot_segment q ≡ false
    → follows template ps ≡ true
    → follows
        (literal "" ∷ literal "v1" ∷ literal "default" ∷ literal "banks" ∷ literal q ∷ template)
        ("" ∷ "v1" ∷ "default" ∷ "banks" ∷ q ∷ ps)
      ≡ true
unfolding follows is_dot_segment hindsight_memory_router.Paths.percent_dots
base-follows q template ps h k = ground (arith, ==_self q)

module _ (quote : String → String) (quoting : IsQuote quote) where
  filled-no_slashes :
      (params : List (String × String)) (template : List Segment)
      → plain_literals template ≡ true
      → no_slashes (filled quote params template) ≡ true
  unfolding no_slashes plain_literals
  filled-no_slashes params [] h = refl
  filled-no_slashes params (literal s ∷ template) h =
      ground (arith, filled-no_slashes params template)
  filled-no_slashes params (parameter name ∷ template) h =
      let (slash, _, _) = quoting (param params name) in
      ground (arith, filled-no_slashes params template)

  filled-no_question :
      (params : List (String × String)) (template : List Segment)
      → plain_literals template ≡ true
      → no_question (join_more "/" (filled quote params template)) ≡ true
  unfolding no_question plain_literals
  filled-no_question params [] h = refl
  filled-no_question params (literal s ∷ template) h =
      let rest = join_more "/" (filled quote params template) in
      ground (
        arith,
        filled-no_question params template,
        no_question-append "/" (String.◌++◌ s rest),
        no_question-append s rest,
      )
  filled-no_question params (parameter name ∷ template) h =
      let (_, question, _) = quoting (param params name) in
      let rest = join_more "/" (filled quote params template) in
      ground (
        arith,
        filled-no_question params template,
        no_question-append "/" (String.◌++◌ (quote (param params name)) rest),
        no_question-append (quote (param params name)) rest,
      )

  pub filled-follows :
      (params : List (String × String)) (template : List Segment)
      → no_dots_in params ≡ true
      → plain_literals template ≡ true
      → follows template (filled quote params template) ≡ true
  unfolding follows plain_literals
  filled-follows params [] d h = refl
  filled-follows params (literal s ∷ template) d h =
      ground (arith, filled-follows params template, ==_self s)
  filled-follows params (parameter name ∷ template) d h =
      let (_, _, dots) = quoting (param params name) in
      ground (arith, filled-follows params template, dots (param-is_relative params name d))

  -- the separator of the suffix is there exactly when the suffix is
  after-filled :
      (params : List (String × String)) (template : List Segment)
      → starts_with_word template ≡ true
      → after "/" (join "/" (filled quote params template))
        ≡ join_more "/" (filled quote params template)
  after-filled params [] h = refl
  after-filled params (literal String.[] ∷ template) h = absurd (ground arith)
  after-filled params (literal (String.◌∷◌ c s) ∷ template) h =
      rw (cons-append c s (join_more "/" (filled quote params template)))
        (rw (cons-not_empty c (String.◌++◌ s (join_more "/" (filled quote params template)))) refl)
  after-filled params (parameter name ∷ template) h = absurd (ground arith)

  -- the path without its query
  pub path_segments :
      (urlencode : List (String × String) → String) (route : FacadeRoute) (bank : String)
      (params query : List (String × String))
      → is_template route ≡ true
      → split_path (before_query (facade_path quote urlencode route bank params query))
        ≡ "" ∷ "v1" ∷ "default" ∷ "banks" ∷ quote bank ∷ filled quote params route.segments
  unfolding split_path facade_path
  path_segments urlencode route bank params query h =
      let (slash, question, _) = quoting bank in
      let segments = filled quote params route.segments in
      let rest = join_more "/" segments in
      let text = query_text urlencode query in
      let base = String.◌++◌ "/v1/default/banks/" (quote bank) in
      let shape : after "/" (join "/" segments) ≡ rest =
        after-filled params route.segments (ground arith) in
      let plain : no_question base ≡ true = base-no_question (quote bank) question in
      let plain_rest : no_question rest ≡ true =
        filled-no_question params route.segments (ground arith) in
      let whole : before_query (String.◌++◌ base (String.◌++◌ rest text)) ≡ String.◌++◌ base rest =
        before_query-append base (String.◌++◌ rest text) plain
        ∙ ap (String.◌++◌ base) (
            before_query-append rest text plain_rest
            ∙ ap (String.◌++◌ rest) (before_query-query_text urlencode query)
            ∙ append-nil rest) in
      ap (λ t. cut (before_query (String.◌++◌ base (String.◌++◌ t text))) "") shape
      ∙ ap (λ t. cut t "") (whole ∙ sym (base-join (quote bank) segments))
      ∙ cut-join "" ("v1" ∷ "default" ∷ "banks" ∷ quote bank ∷ segments) no_slash-empty (
          base-no_slashes (quote bank) segments slash
            (filled-no_slashes params route.segments (ground arith)))
