-- ===== src/Superset/Sets.antt =====
-- The set and list operations of the index: membership in what they return.
use claw_tune.Base.{
  ◌≡◌, ◌≢◌, refl, inl, inr, Bool, true, false, ◌&&◌, ◌||◌, List, [], ◌∷◌, is_yes, arith, Bool-cases,
}
use claw_tune.Superset.{has, insert, intersect, is_empty, insert_by_length, sort_by_length}

module _ {A : Type 0} (dec : Discrete A) where
  pub has-insert :
      (k x : A) (xs : List A) → has dec k (insert dec x xs) ≡ (is_yes (dec x k) || has dec k xs)
  unfolding has insert
  has-insert k x xs = elim (dec x k) [
    | yes p ↦ elim (Bool-cases (has dec x xs)) [
      | inl h ↦ ground (arith, p, h)
      | inr h ↦ ground (arith, p, h)
    ]
    | no n ↦ ground (arith, n)
  ]

  pub has-intersect :
      (k : A) (xs ys : List A) → has dec k (intersect dec xs ys) ≡ (has dec k xs && has dec k ys)
  unfolding has intersect
  has-intersect k [] ys = refl
  has-intersect k (x ∷ xs) ys = elim (dec x k) [
    | yes p ↦ ground (arith, p, has-intersect k xs ys)
    | no n ↦ ground (arith, n, has-intersect k xs ys)
  ]

  pub has-is_empty : (k : A) (xs : List A) → is_empty xs ≡ true → has dec k xs ≡ false
  unfolding has
  has-is_empty k [] e = refl
  has-is_empty k (x ∷ xs) e = absurd cc

  -- Every list has the element.
  abbrev pub in_all : A → List (List A) → Bool
  in_all k [] = true
  in_all k (xs ∷ xss) = has dec k xs && in_all k xss

  pub in_all-insert :
      (k : A) (xs : List A) (xss : List (List A))
      → in_all k (insert_by_length xs xss) ≡ (has dec k xs && in_all k xss)
  unfolding insert_by_length
  in_all-insert k xs [] = refl
  in_all-insert k xs (ys ∷ yss) = ground (arith, in_all-insert k xs yss)

  pub in_all-sort : (k : A) (xss : List (List A)) → in_all k (sort_by_length xss) ≡ in_all k xss
  unfolding sort_by_length
  in_all-sort k [] = refl
  in_all-sort k (xs ∷ xss) =
      ground (arith, in_all-insert k xs (sort_by_length xss), in_all-sort k xss)

  pub insert_nonempty : (xs : List A) (xss : List (List A)) → insert_by_length xs xss ≢ []
  unfolding insert_by_length
  insert_nonempty xs [] e = absurd cc
  insert_nonempty xs (ys ∷ yss) e = ground (arith, e)

  pub sort_nonempty : (xs : List A) (xss : List (List A)) → sort_by_length (xs ∷ xss) ≢ []
  unfolding sort_by_length
  sort_nonempty xs xss e = insert_nonempty xs (sort_by_length xss) e
