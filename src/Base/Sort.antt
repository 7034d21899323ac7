-- ===== src/Base/Sort.antt =====
-- Lists sorted by an order, their first elements, and what holds of all elements.
use Prim.Native.Nat.{ℕ, zero, suc, ◌-◌, ◌≤◌}
use mathlib.Core.Path.{◌≡◌, refl, ◌∙◌, ap}
use mathlib.Core.Logic.{inl, inr}
use mathlib.Core.Bool.{Bool}
use mathlib.Core.List.{List, [], ◌∷◌, ◌++◌}
use native.Mathlib.Omega.{arith}
use claw_tune.Base.Lists.{length, All}
use claw_tune.Base.Tests.{if◌then◌else◌, Bool-cases}

module _ {A : Type 0} where
  -- `sorted(xs)` by an order.
  unfoldable pub insert_by : (A → A → Bool) → A → List A → List A
  insert_by le x [] = x ∷ []
  insert_by le x (y ∷ ys) = let rest = insert_by le x ys in if le x y then x ∷ y ∷ ys else y ∷ rest

  unfoldable pub sort_by : (A → A → Bool) → List A → List A
  sort_by le [] = []
  sort_by le (x ∷ xs) = insert_by le x (sort_by le xs)

  -- `xs[:k]`
  unfoldable pub take : ℕ → List A → List A
  take zero xs = []
  take (suc k) [] = []
  take (suc k) (x ∷ xs) = x ∷ take k xs

  -- `xs[k:]`
  unfoldable pub drop : ℕ → List A → List A
  drop zero xs = xs
  drop (suc k) [] = []
  drop (suc k) (x ∷ xs) = drop k xs

  length-insert_by :
      (le : A → A → Bool) (x : A) (ys : List A) → length (insert_by le x ys) ≡ suc (length ys)
  unfolding insert_by
  length-insert_by le x [] = refl
  length-insert_by le x (y ∷ ys) = ground (arith, length-insert_by le x ys)

  pub length-sort_by : (le : A → A → Bool) (xs : List A) → length (sort_by le xs) ≡ length xs
  unfolding sort_by
  length-sort_by le [] = refl
  length-sort_by le (x ∷ xs) = length-insert_by le x (sort_by le xs) ∙ ap suc (length-sort_by le xs)

  pub length-take-le : (k : ℕ) (xs : List A) → length (take k xs) ≤ k
  unfolding take
  length-take-le zero xs = omega arith
  length-take-le (suc k) [] = omega arith
  length-take-le (suc k) (x ∷ xs) = omega (arith, length-take-le k xs)

  -- The first elements of a list that is long enough.
  pub take-append :
      (k : ℕ) (xs ys : List A) → length xs ≤ k → take k (xs ++ ys) ≡ xs ++ take (k - length xs) ys
  unfolding take
  take-append k [] ys h = ap (λ j. take j ys) (omega arith)
  take-append zero (x ∷ xs) ys h = absurd (omega (arith, h))
  take-append (suc k) (x ∷ xs) ys h =
      ap (λ zs. x ∷ zs)
        (take-append k xs ys (omega (arith, h)) ∙ ap (λ j. xs ++ take j ys) (omega arith))

  module _ (P : A → Type 0) where
    pub All-insert_by :
        (le : A → A → Bool) (x : A) (ys : List A) → P x → All P ys → All P (insert_by le x ys)
    unfolding insert_by
    All-insert_by le x [] p h = (p, tt)
    All-insert_by le x (y ∷ ys) p h = elim (Bool-cases (le x y)) [
      | inl e ↦ rw e (p, h)
      | inr e ↦ rw e (h.0, All-insert_by le x ys p h.1)
    ]

    pub All-sort_by : (le : A → A → Bool) (xs : List A) → All P xs → All P (sort_by le xs)
    unfolding sort_by
    All-sort_by le [] h = tt
    All-sort_by le (x ∷ xs) h = All-insert_by le x (sort_by le xs) h.0 (All-sort_by le xs h.1)

    pub All-take : (k : ℕ) (xs : List A) → All P xs → All P (take k xs)
    unfolding take
    All-take zero xs h = tt
    All-take (suc k) [] h = tt
    All-take (suc k) (x ∷ xs) h = (h.0, All-take k xs h.1)

    pub All-append : (xs ys : List A) → All P xs → All P ys → All P (xs ++ ys)
    All-append [] ys h g = g
    All-append (x ∷ xs) ys h g = (h.0, All-append xs ys h.1 g)
