-- ===== src/Command/Projection/Sets.antt =====
-- The sets of features and the lists that they are sorted into.
use Prim.Native.Nat.{Ordering}
use Prim.Native.String.{compare}
use claw_tune.Base.{
  insert_by, sort_by, ◌≤◌, ◌≡◌, refl, ◌∙◌, ap, Bool, true, false, ◌&&◌, ◌||◌, String, List, [], ◌∷◌,
  ◌++◌, All, length, if◌then◌else◌, arith, Bool-cases, inl, inr, is_yes, string_discrete,
}
use claw_tune.Command.Words.{is_text, is_in}

-- `xs.add(x)`
unfoldable pub add_text : String → List String → List String
add_text x xs = if is_in x xs then xs else x ∷ xs

-- `xs - ys`
unfoldable pub minus : List String → List String → List String
minus [] ys = []
minus (x ∷ xs) ys = let rest = minus xs ys in if is_in x ys then rest else x ∷ rest

-- `frozenset(xs)`
unfoldable pub to_set : List String → List String
to_set [] = []
to_set (x ∷ xs) = add_text x (to_set xs)

-- `a <= b`
unfoldable pub text_le : String → String → Bool
text_le a b = elim (compare a b) [ Ordering.gt ↦ false | _ ↦ true ]

-- `a <= b` on tuples of texts.
unfoldable pub tuple_le : List String → List String → Bool
tuple_le [] b = true
tuple_le (x ∷ xs) [] = false
tuple_le (x ∷ xs) (y ∷ ys) =
    let rest = tuple_le xs ys in
    elim (compare x y) [ Ordering.lt ↦ true | Ordering.eq ↦ rest | Ordering.gt ↦ false ]

unfoldable pub is_tuple : List String → List String → Bool
is_tuple [] [] = true
is_tuple (x ∷ xs) (y ∷ ys) = is_text x y && is_tuple xs ys
is_tuple _ _ = false

unfoldable pub has_tuple : List String → List (List String) → Bool
has_tuple v [] = false
has_tuple v (w ∷ ws) = is_tuple w v || has_tuple v ws

-- `{tuple(v) for v in values}`
unfoldable pub dedupe_tuples : List (List String) → List (List String)
dedupe_tuples [] = []
dedupe_tuples (v ∷ vs) = let rest = dedupe_tuples vs in if has_tuple v rest then rest else v ∷ rest

module _ (P : String → Type 0) where
  pub All-add_text : (x : String) (xs : List String) → P x → All P xs → All P (add_text x xs)
  unfolding add_text
  All-add_text x xs p h = elim (Bool-cases (is_in x xs)) [ inl e ↦ rw e h | inr e ↦ rw e (p, h) ]

  pub All-minus : (xs ys : List String) → All P xs → All P (minus xs ys)
  unfolding minus
  All-minus [] ys h = tt
  All-minus (x ∷ xs) ys h = elim (Bool-cases (is_in x ys)) [
    | inl e ↦ rw e (All-minus xs ys h.1)
    | inr e ↦ rw e (h.0, All-minus xs ys h.1)
  ]

  pub All-to_set : (xs : List String) → All P xs → All P (to_set xs)
  unfolding to_set
  All-to_set [] h = tt
  All-to_set (x ∷ xs) h = All-add_text x (to_set xs) h.0 (All-to_set xs h.1)

pub length-to_set-le : (xs : List String) → length (to_set xs) ≤ length xs
unfolding to_set add_text
length-to_set-le [] = omega arith
length-to_set-le (x ∷ xs) = ground (arith, length-to_set-le xs)

pub is_text_self : (s : String) → is_text s s ≡ true
is_text_self s = elim (string_discrete s s) as (λ d. is_yes d ≡ true) [
  | yes p ↦ refl
  | no n ↦ absurd (n refl)
]

pub is_in-append :
    (w : String) (xs ys : List String) → is_in w (xs ++ ys) ≡ (is_in w xs || is_in w ys)
unfolding is_in
is_in-append w [] ys = refl
is_in-append w (x ∷ xs) ys = ground (arith, is_in-append w xs ys)

is_in-insert_by :
    (le : String → String → Bool) (w x : String) (ys : List String)
    → is_in w (insert_by le x ys) ≡ (is_text x w || is_in w ys)
unfolding is_in insert_by
is_in-insert_by le w x [] = refl
is_in-insert_by le w x (y ∷ ys) = ground (arith, is_in-insert_by le w x ys)

pub is_in-sort_by :
    (le : String → String → Bool) (w : String) (xs : List String)
    → is_in w (sort_by le xs) ≡ is_in w xs
unfolding is_in sort_by
is_in-sort_by le w [] = refl
is_in-sort_by le w (x ∷ xs) =
    is_in-insert_by le w x (sort_by le xs) ∙ ap (λ b. is_text x w || b) (is_in-sort_by le w xs)

is_in-add_text :
    (w x : String) (xs : List String) → is_in w (add_text x xs) ≡ (is_text x w || is_in w xs)
unfolding is_in add_text
is_in-add_text w x xs = elim (string_discrete x w) [
  | yes p ↦ elim (Bool-cases (is_in x xs)) [
    | inl h ↦ ground (arith, p, h)
    | inr h ↦ ground (arith, p, h)
  ]
  | no n ↦ ground (arith, n)
]

pub is_in-to_set : (w : String) (xs : List String) → is_in w (to_set xs) ≡ is_in w xs
unfolding is_in to_set
is_in-to_set w [] = refl
is_in-to_set w (x ∷ xs) =
    is_in-add_text w x (to_set xs) ∙ ap (λ b. is_text x w || b) (is_in-to_set w xs)
