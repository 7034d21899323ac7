-- ===== src/Subset/Weight.antt =====
-- The children that are visited hold no more dicts than the dict they stand in, so the rounds of the
-- loop are bounded.
use claw_tune.Base.{
  ℕ, ◌+◌, ◌≤◌, ◌≡◌, ◌≢◌, refl, ◌∙◌, ap, ltb, true, false, inl, inr, Option, none, some, is_some,
  List, [], ◌∷◌, length, if◌then◌else◌, is_yes, arith, Bool-cases,
}
use claw_tune.Superset.{has, insert}
use claw_tune.Subset.{
  Terminal, Child, leaf, inner, Children, nil, cons, get_child, set_of, cons_child, by_features,
  by_items, chosen, count, weight, weights,
}

module _ {F : Type 0} (dec : Discrete F) where
  -- How many dicts there are below the children.
  unfoldable pub child_weight : Child F → ℕ
  child_weight (leaf t) = 0
  child_weight (inner b) = weight b

  unfoldable pub total_weight : List (Child F) → ℕ
  total_weight [] = 0
  total_weight (c ∷ cs) = child_weight c + total_weight cs

  weights-cons :
      (f : F) (c : Child F) (cs : Children F) → weights (cons f c cs) ≡ child_weight c + weights cs
  unfolding weight child_weight
  weights-cons f (leaf t) cs = omega arith
  weights-cons f (inner b) cs = refl

  by_items_weight :
      (allowed : List F) (cs : Children F) → total_weight (by_items dec allowed cs) ≤ weights cs
  unfolding by_items total_weight
  by_items_weight allowed nil = omega arith
  by_items_weight allowed (cons f c cs) = elim (Bool-cases (has dec f allowed)) [
    | inl e ↦ rw e (omega (arith, by_items_weight allowed cs, weights-cons f c cs))
    | inr e ↦ rw e (omega (arith, by_items_weight allowed cs, weights-cons f c cs))
  ]

  -- A list that repeats nothing.
  abbrev pub IsSetList : List F → Type 0
  IsSetList [] = Unit
  IsSetList (f ∷ fs) = (has dec f fs ≡ false) × IsSetList fs

  pub set_of-IsSetList : (fs : List F) → IsSetList (set_of dec fs)
  unfolding set_of insert
  set_of-IsSetList [] = tt
  set_of-IsSetList (f ∷ fs) = elim (Bool-cases (has dec f (set_of dec fs))) [
    | inl e ↦ rw e (set_of-IsSetList fs)
    | inr e ↦ rw e (e, set_of-IsSetList fs)
  ]

  by_features_other :
      (fs : List F) (g : F) (c : Child F) (cs : Children F)
      → has dec g fs ≡ false
      → by_features dec fs (cons g c cs) ≡ by_features dec fs cs
  unfolding by_features get_child has
  by_features_other [] g c cs h = refl
  by_features_other (f ∷ fs) g c cs h = elim (dec g f) [
    | yes p ↦ absurd (ground (arith, h, p, dec f g))
    | no n ↦ rw (by_features_other fs g c cs (ground (arith, h))) (ground (arith, n))
  ]

  first_weight :
      (o : Option (Child F)) (c : Child F) (xs ys : List (Child F))
      → total_weight xs ≤ total_weight ys
      → total_weight (c ∷ xs) ≤ child_weight c + total_weight (cons_child dec o ys)
  unfolding total_weight cons_child
  first_weight none c xs ys h = omega (arith, h)
  first_weight (some d) c xs ys h = omega (arith, h)

  rest_weight :
      (o : Option (Child F)) (c : Child F) (xs ys : List (Child F))
      → total_weight xs ≤ child_weight c + total_weight ys
      → total_weight (cons_child dec o xs) ≤ child_weight c + total_weight (cons_child dec o ys)
  unfolding total_weight cons_child
  rest_weight none c xs ys h = h
  rest_weight (some d) c xs ys h = omega (arith, h)

  by_features_step :
      (fs : List F) (g : F) (c : Child F) (cs : Children F)
      → IsSetList fs
      → total_weight (by_features dec fs (cons g c cs))
        ≤ child_weight c + total_weight (by_features dec fs cs)
  unfolding by_features get_child total_weight cons_child
  by_features_step [] g c cs u = omega arith
  by_features_step (f ∷ fs) g c cs u = elim (dec g f) [
    | yes p ↦ rw (is_yes_of g f p) (
        first_weight (get_child dec f cs) c (by_features dec fs (cons g c cs))
          (by_features dec fs cs)
          (rw (by_features_other fs g c cs (ap (λ x. has dec x fs) p ∙ u.0)) (omega arith)))
    | no n ↦ rw (is_no_of g f n) (
        rest_weight (get_child dec f cs) c (by_features dec fs (cons g c cs))
          (by_features dec fs cs) (by_features_step fs g c cs u.1))
  ]
    where
      is_yes_of : (a b : F) → a ≡ b → is_yes (dec a b) ≡ true
      is_yes_of a b p = elim (dec a b) as (λ d. is_yes d ≡ true) [
        | yes q ↦ refl
        | no n ↦ absurd (n p)
      ]

      is_no_of : (a b : F) → a ≢ b → is_yes (dec a b) ≡ false
      is_no_of a b n = elim (dec a b) as (λ d. is_yes d ≡ false) [
        | yes q ↦ absurd (n q)
        | no m ↦ refl
      ]

  nothing : (fs : List F) → total_weight (by_features dec fs nil) ≡ 0
  unfolding by_features get_child total_weight cons_child
  nothing [] = refl
  nothing (f ∷ fs) = nothing fs

  by_features_weight :
      (fs : List F) (cs : Children F)
      → IsSetList fs
      → total_weight (by_features dec fs cs) ≤ weights cs
  unfolding weight
  by_features_weight fs nil u = rw (nothing fs) (omega arith)
  by_features_weight fs (cons g c cs) u =
      omega (arith, by_features_step fs g c cs u, by_features_weight fs cs u, weights-cons g c cs)

  pub chosen_weight :
      (allowed : List F) (n : Option (Terminal F)) (cs : Children F)
      → IsSetList allowed
      → total_weight (chosen dec allowed n cs) ≤ weights cs
  unfolding chosen
  chosen_weight allowed n cs u =
      elim (Bool-cases (ltb (length allowed + 1) (count cs + (if is_some n then 1 else 0)))) [
        | inl e ↦ rw e (by_features_weight allowed cs u)
        | inr e ↦ rw e (by_items_weight allowed cs)
      ]
