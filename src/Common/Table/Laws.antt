-- ===== src/Common/Table/Laws.antt =====
-- What the statements do to sums, counts and lookups of a table.
use Prim.Native.Nat.{ℕ, ◌+◌, ◌≤◌}
use mathlib.Core.Path.{◌≡◌, refl}
use mathlib.Core.Bool.{Bool, true, false}
use mathlib.Core.Option.{none, some}
use mathlib.Core.List.{List, [], ◌∷◌}
use native.Mathlib.Omega.{arith}
use hindsight_memory_router.Common.Tests.{bit}
use hindsight_memory_router.Common.Table.{
  sum_of, count_where, find_where, update_where, delete_where,
}

module _ {ℓ} {A : Type ℓ} where
  pub count_where-eq-sum_of :
      (p : A → Bool) (xs : List A) → count_where p xs ≡ sum_of (λ x. bit (p x)) xs
  unfolding count_where sum_of
  count_where-eq-sum_of p [] = refl
  count_where-eq-sum_of p (x ∷ xs) = omega (arith, count_where-eq-sum_of p xs)

  pub find_where-true : (p : A → Bool) (xs : List A) (r : A) → find_where p xs ≡ some r → p r ≡ true
  unfolding find_where
  find_where-true p [] r h = ground arith
  find_where-true p (x ∷ xs) r h = ground (arith, find_where-true p xs r)

  pub count_where_zero :
      (p : A → Bool) (xs : List A) → find_where p xs ≡ none → count_where p xs ≡ 0
  unfolding find_where count_where
  count_where_zero p [] h = refl
  count_where_zero p (x ∷ xs) h = ground (arith, count_where_zero p xs)

  pub find_where-none : (p : A → Bool) (xs : List A) → count_where p xs ≡ 0 → find_where p xs ≡ none
  unfolding find_where count_where
  find_where-none p [] h = refl
  find_where-none p (x ∷ xs) h = ground (arith, find_where-none p xs)

  -- an UPDATE that meets no row changes nothing
  pub update_where_absent :
      (p : A → Bool) (f : A → A) (xs : List A) → count_where p xs ≡ 0 → update_where p f xs ≡ xs
  unfolding update_where count_where
  update_where_absent p f [] h = refl
  update_where_absent p f (x ∷ xs) h = ground (arith, update_where_absent p f xs)

  -- an UPDATE of the one row that meets the test moves a sum by that row's change
  pub sum_of-update_where :
      (w : A → ℕ) (p : A → Bool) (f : A → A) (xs : List A) (r : A)
      → count_where p xs ≤ 1
      → find_where p xs ≡ some r
      → sum_of w (update_where p f xs) + w r ≡ sum_of w xs + w (f r)
  unfolding sum_of update_where count_where find_where
  sum_of-update_where w p f [] r u h = ground arith
  sum_of-update_where w p f (x ∷ xs) r u h =
      ground (arith, update_where_absent p f xs, sum_of-update_where w p f xs r)

  -- a DELETE of the one row that meets the test takes its share from a sum
  pub delete_where_absent :
      (p : A → Bool) (xs : List A) → count_where p xs ≡ 0 → delete_where p xs ≡ xs
  unfolding delete_where count_where
  delete_where_absent p [] h = refl
  delete_where_absent p (x ∷ xs) h = ground (arith, delete_where_absent p xs)

  pub sum_of-delete_where :
      (w : A → ℕ) (p : A → Bool) (xs : List A) (r : A)
      → count_where p xs ≤ 1
      → find_where p xs ≡ some r
      → sum_of w (delete_where p xs) + w r ≡ sum_of w xs
  unfolding sum_of delete_where count_where find_where
  sum_of-delete_where w p [] r u h = ground arith
  sum_of-delete_where w p (x ∷ xs) r u h =
      ground (arith, delete_where_absent p xs, sum_of-delete_where w p xs r)

  pub count_where-delete_where :
      (q p : A → Bool) (xs : List A) → count_where q (delete_where p xs) ≤ count_where q xs
  unfolding count_where delete_where
  count_where-delete_where q p [] = omega arith
  count_where-delete_where q p (x ∷ xs) = ground (arith, count_where-delete_where q p xs)

  pub count_where-update_where :
      (q p : A → Bool) (f : A → A) (xs : List A)
      → ((x : A) → q (f x) ≡ q x)
      → count_where q (update_where p f xs) ≡ count_where q xs
  unfolding count_where update_where
  count_where-update_where q p f [] h = refl
  count_where-update_where q p f (x ∷ xs) h =
      ground (arith, h x, count_where-update_where q p f xs h)

  -- lookups by a test that the UPDATE does not disturb
  pub find_where-update_ne :
      (q p : A → Bool) (f : A → A) (xs : List A)
      → ((x : A) → p x ≡ true → q x ≡ false)
      → ((x : A) → q (f x) ≡ q x)
      → find_where q (update_where p f xs) ≡ find_where q xs
  unfolding find_where update_where
  find_where-update_ne q p f [] h k = refl
  find_where-update_ne q p f (x ∷ xs) h k =
      ground (arith, h x, k x, find_where-update_ne q p f xs h k)

  pub find_where-update_self :
      (p q : A → Bool) (f : A → A) (xs : List A) (r : A)
      → ((x : A) → q (f x) ≡ q x)
      → find_where q xs ≡ some r
      → ((x : A) → q x ≡ true → p x ≡ true)
      → find_where q (update_where p f xs) ≡ some (f r)
  unfolding find_where update_where
  find_where-update_self p q f [] r k h s = ground arith
  find_where-update_self p q f (x ∷ xs) r k h s =
      ground (arith, k x, s x, find_where-update_self p q f xs r k)

  pub find_where-delete_ne :
      (q p : A → Bool) (xs : List A)
      → ((x : A) → p x ≡ true → q x ≡ false)
      → find_where q (delete_where p xs) ≡ find_where q xs
  unfolding find_where delete_where
  find_where-delete_ne q p [] h = refl
  find_where-delete_ne q p (x ∷ xs) h = ground (arith, h x, find_where-delete_ne q p xs h)

  pub find_where-delete_self :
      (q p : A → Bool) (xs : List A)
      → ((x : A) → q x ≡ true → p x ≡ true)
      → find_where q (delete_where p xs) ≡ none
  unfolding find_where delete_where
  find_where-delete_self q p [] h = refl
  find_where-delete_self q p (x ∷ xs) h = ground (arith, h x, find_where-delete_self q p xs h)

-- Two tests that pick the same one row write, and remove, the same.
module _ {ℓ} {A : Type ℓ} (p q : A → Bool) (narrower : (x : A) → p x ≡ true → q x ≡ true) where
  count_where_le : (xs : List A) → count_where p xs ≤ count_where q xs
  unfolding count_where
  count_where_le [] = omega arith
  count_where_le (x ∷ xs) = ground (arith, narrower x, count_where_le xs)

  pub update_where_agree :
      (f : A → A) (xs : List A) (r : A)
      → count_where q xs ≤ 1
      → find_where q xs ≡ some r
      → p r ≡ true
      → update_where p f xs ≡ update_where q f xs
  unfolding update_where count_where find_where
  update_where_agree f [] r u h k = refl
  update_where_agree f (x ∷ xs) r u h k = ground (
    arith,
    narrower x,
    count_where_le xs,
    update_where_absent p f xs,
    update_where_absent q f xs,
    update_where_agree f xs r,
  )

  pub delete_where_agree :
      (xs : List A) (r : A)
      → count_where q xs ≤ 1
      → find_where q xs ≡ some r
      → p r ≡ true
      → delete_where p xs ≡ delete_where q xs
  unfolding delete_where count_where find_where
  delete_where_agree [] r u h k = refl
  delete_where_agree (x ∷ xs) r u h k = ground (
    arith,
    narrower x,
    count_where_le xs,
    delete_where_absent p xs,
    delete_where_absent q xs,
    delete_where_agree xs r,
  )

-- the row that some test finds is the one that its key finds, where the key occurs once
pub find_where_by {ℓ} :
    {A : Type ℓ} (p k : A → Bool) (xs : List A) (r : A)
    → find_where p xs ≡ some r
    → k r ≡ true
    → count_where k xs ≤ 1
    → find_where k xs ≡ some r
unfolding find_where count_where
find_where_by p k [] r h own u = ground arith
find_where_by p k (x ∷ xs) r h own u = ground (arith, find_where_by p k xs r, find_where-none k xs)
