-- ===== src/Common/Action.antt =====
-- Python code over a state that it changes: a call returns or raises, and leaves the next state. What
-- was written before a raise stays.
use mathlib.Core.Path.{◌≡◌, refl}
use mathlib.Core.Logic.{◌⊎◌, inl, inr}
use hindsight_memory_router.Common.Outcome.{Error, Result, ok, err}

abbrev pub Call : Type 0 → Type 0 → Type 0
Call S A = S → Result A × S

infixl 5 ◌>>=◌ ◌>>◌
abbrev pub ◌>>=◌ : {S A B : Type 0} → Call S A → (A → Call S B) → Call S B
◌>>=◌ m f s = let (r, s') = m s in elim r [ ok a ↦ f a s' | err e ↦ (err e, s') ]

abbrev pub ◌>>◌ : {S B : Type 0} → Call S (Unit {0}) → Call S B → Call S B
m >> n = m >>= λ _. n

abbrev pub pure : {S A : Type 0} → A → Call S A
pure a s = (ok a, s)

abbrev pub raise : {S A : Type 0} → Error → Call S A
raise e s = (err e, s)

abbrev pub lift : {S A : Type 0} → Result A → Call S A
lift r s = (r, s)

-- try: m, except: handle
abbrev pub catch : {S A : Type 0} → Call S A → (Error → Call S A) → Call S A
catch m handle s = let (r, s') = m s in elim r [ ok a ↦ (ok a, s') | err e ↦ handle e s' ]

-- the ways in which a call ends
pub Act-cases {ℓ κ} :
    {A : Type ℓ} {S : Type κ} (r : Result A × S)
    → ((a : A) × (s : S) × (r ≡ (ok a, s))) ⊎ ((e : Error) × (s : S) × (r ≡ (err e, s)))
Act-cases (ok a, s) = inl (a, s, refl)
Act-cases (err e, s) = inr (e, s, refl)

continue-ext :
    {S A B : Type 0} (r : Result A × S) (f g : A → Call S B)
    → ((a : A) (s : S) → f a s ≡ g a s)
    → elim r.0 as (λ x. Result B × S) [ ok a ↦ f a r.1 | err e ↦ (err e, r.1) ]
      ≡ elim r.0 as (λ x. Result B × S) [ ok a ↦ g a r.1 | err e ↦ (err e, r.1) ]
continue-ext (ok a, s) f g h = h a s
continue-ext (err e, s) f g h = refl

-- calls that go on alike are alike
pub bind-ext :
    {S A B : Type 0} (m : Call S A) (f g : A → Call S B)
    → ((a : A) (s : S) → f a s ≡ g a s)
    → (s : S) → (m >>= f) s ≡ (m >>= g) s
bind-ext m f g h s = continue-ext (m s) f g h
