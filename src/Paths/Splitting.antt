-- ===== src/Paths/Splitting.antt =====
-- Splitting a joined path gives its segments back, when none of them holds a slash.
use Prim.Native.String
use Prim.Native.Char.{Char}
use text.Mathlib.TextLemmas.{append_assoc, append-nil, nil-append, cons-append}
use hindsight_memory_router.Common.{
  arith, ◌≡◌, refl, sym, ◌∙◌, ap, inl, inr, Bool-cases, String, Bool, true, false, List, [], ◌∷◌,
  ◌==◌, ◌&&◌, not,
}
use hindsight_memory_router.Facade.{join_more, cut}

unfoldable pub no_slash : String → Bool
no_slash String.[] = true
no_slash (String.◌∷◌ c rest) = not (String.◌∷◌ c String.[] == "/") && no_slash rest

unfoldable pub no_slashes : List String → Bool
no_slashes [] = true
no_slashes (s ∷ rest) = no_slash s && no_slashes rest

pub no_slash-empty : no_slash "" ≡ true
unfolding no_slash
no_slash-empty = refl

no_slash-append : (a b : String) → no_slash (String.◌++◌ a b) ≡ (no_slash a && no_slash b)
unfolding no_slash
no_slash-append String.[] b = ap no_slash (nil-append b)
no_slash-append (String.◌∷◌ c a) b = rw (cons-append c a b) (ground (arith, no_slash-append a b))

-- a character that is no slash, as a text
no_slash-character :
    (c : Char) → (String.◌∷◌ c String.[] == "/") ≡ false → no_slash (String.◌∷◌ c String.[]) ≡ true
unfolding no_slash
no_slash-character c h = ground arith

pub cut-no_slashes :
    (s current : String) → no_slash current ≡ true → no_slashes (cut s current) ≡ true
unfolding cut no_slashes
cut-no_slashes String.[] current h = ground arith
cut-no_slashes (String.◌∷◌ c rest) current h =
    let character : String = String.◌∷◌ c String.[] in
    elim (Bool-cases (character == "/")) [
      | inl e ↦ ground (arith, cut-no_slashes rest "" no_slash-empty)
      | inr e ↦
          let inside : no_slash (String.◌++◌ current character) ≡ true =
            ground (arith, no_slash-append current character, no_slash-character c e) in
          ground (arith, cut-no_slashes rest (String.◌++◌ current character) inside)
    ]

cut-word :
    (s t current : String)
    → no_slash s ≡ true
    → cut (String.◌++◌ s t) current ≡ cut t (String.◌++◌ current s)
unfolding cut no_slash
cut-word String.[] t current h = rw (nil-append t) (ap (cut t) (sym (append-nil current)))
cut-word (String.◌∷◌ c rest) t current h =
    let character : String = String.◌∷◌ c String.[] in
    let plain : (character == "/") ≡ false = ground arith in
    let joined : String.◌++◌ (String.◌++◌ current character) rest
        ≡ String.◌++◌ current (String.◌∷◌ c rest) =
      append_assoc current character rest
      ∙ ap (String.◌++◌ current)
          (cons-append c String.[] rest ∙ ap (String.◌∷◌ c) (nil-append rest)) in
    let ih = cut-word rest t (String.◌++◌ current character) (ground arith) in
    rw (cons-append c rest t) (ground (arith, joined))

cut-slash : (t current : String) → cut (String.◌++◌ "/" t) current ≡ current ∷ cut t ""
unfolding cut
cut-slash t current = rw (cons-append "/" "" t, nil-append t) refl

cut-end : (p : String) → cut "" (String.◌++◌ "" p) ≡ p ∷ []
unfolding cut
cut-end p = ap (λ t. t ∷ []) (nil-append p)

pub cut-join :
    (p : String) (ps : List String)
    → no_slash p ≡ true
    → no_slashes ps ≡ true
    → cut (String.◌++◌ p (join_more "/" ps)) "" ≡ p ∷ ps
unfolding no_slashes
cut-join p [] h k = cut-word p "" "" h ∙ cut-end p
cut-join p (q ∷ qs) h k =
    cut-word p (join_more "/" (q ∷ qs)) "" h
    ∙ cut-slash (String.◌++◌ q (join_more "/" qs)) (String.◌++◌ "" p)
    ∙ ap (λ t. t ∷ cut (String.◌++◌ q (join_more "/" qs)) "") (nil-append p)
    ∙ ap (λ (l : List String). p ∷ l) (cut-join q qs (ground arith) (ground arith))
