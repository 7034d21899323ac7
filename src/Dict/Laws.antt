-- ===== src/Dict/Laws.antt =====
-- Laws of `get`, `put` and `pop`.
use mathlib.Core.Logic.{ite, if_pos, if_neg}
use claw_tune.Base.{ℕ, ◌+◌, ◌≤◌, ◌≡◌, ◌≢◌, refl, sym, ◌∙◌, none, some, [], ◌∷◌, arith, length}
use claw_tune.Dict.{Dict, get, put, pop, IsUnique, Each, sum_values}

module _ {ℓ} {K V : Type ℓ} (dec : Discrete K) where
  pub get-put :
      (j k : K) (v : V) (d : Dict K V)
      → get dec j (put dec k v d) ≡ ite (dec k j) (some v) (get dec j d)
  unfolding get put
  get-put j k v [] = refl
  get-put j k v ((i, w) ∷ d) = ground (arith, get-put j k v d)

  pub get-put_self : (k : K) (v : V) (d : Dict K V) → get dec k (put dec k v d) ≡ some v
  get-put_self k v d = get-put k k v d ∙ if_pos (dec k k) refl _ _

  pub get-put_ne :
      {j k : K} (v : V) (d : Dict K V) → k ≢ j → get dec j (put dec k v d) ≡ get dec j d
  get-put_ne {j} {k} v d n = get-put j k v d ∙ if_neg (dec k j) n _ _

  pub get-pop_ne : (j k : K) (d : Dict K V) → k ≢ j → get dec j (pop dec k d) ≡ get dec j d
  unfolding get pop
  get-pop_ne j k [] n = refl
  get-pop_ne j k ((i, w) ∷ d) n = ground (arith, get-pop_ne j k d n)

  pub get-pop_self : (k : K) (d : Dict K V) → IsUnique dec d → get dec k (pop dec k d) ≡ none
  unfolding get pop
  get-pop_self k [] u = refl
  get-pop_self k ((i, w) ∷ d) u = ground (arith, get-pop_self k d u.1)

  pub get-pop :
      (j k : K) (d : Dict K V)
      → IsUnique dec d
      → get dec j (pop dec k d) ≡ ite (dec k j) none (get dec j d)
  get-pop j k d u = elim (dec k j) [
    | yes p ↦ ground (arith, get-pop_self k d u)
    | no n ↦ ground (arith, get-pop_ne j k d n)
  ]

  pub pop_absent : (k : K) (d : Dict K V) → get dec k d ≡ none → pop dec k d ≡ d
  unfolding get pop
  pop_absent k [] h = refl
  pop_absent k ((i, w) ∷ d) h = ground (arith, pop_absent k d)

  -- A lookup in a part finds nothing that a lookup in the whole does not.
  pub get-pop-none : (j k : K) (d : Dict K V) → get dec j d ≡ none → get dec j (pop dec k d) ≡ none
  unfolding get pop
  get-pop-none j k [] h = refl
  get-pop-none j k ((i, w) ∷ d) h = ground (arith, get-pop-none j k d)

  pub put-IsUnique : (k : K) (v : V) (d : Dict K V) → IsUnique dec d → IsUnique dec (put dec k v d)
  unfolding get put
  put-IsUnique k v [] u = (refl, tt)
  put-IsUnique k v ((i, w) ∷ d) u = elim (dec i k) [
    | yes p ↦ rw (if_pos (dec i k) p) u
    | no n ↦ rw (if_neg (dec i k) n) (get-put_ne v d (λ e. n (sym e)) ∙ u.0, put-IsUnique k v d u.1)
  ]

  pub pop-IsUnique : (k : K) (d : Dict K V) → IsUnique dec d → IsUnique dec (pop dec k d)
  unfolding pop
  pop-IsUnique k [] u = tt
  pop-IsUnique k ((i, w) ∷ d) u = elim (dec i k) [
    | yes p ↦ rw (if_pos (dec i k) p) u.1
    | no n ↦ rw (if_neg (dec i k) n) (get-pop-none i k d u.0, pop-IsUnique k d u.1)
  ]

  pub length-put_new :
      (k : K) (v : V) (d : Dict K V) → get dec k d ≡ none → length (put dec k v d) ≡ length d + 1
  unfolding get put
  length-put_new k v [] h = omega arith
  length-put_new k v ((i, w) ∷ d) h = ground (arith, length-put_new k v d)

  pub length-put_old :
      (k : K) (v w : V) (d : Dict K V) → get dec k d ≡ some w → length (put dec k v d) ≡ length d
  unfolding get put
  length-put_old k v w [] h = ground arith
  length-put_old k v w ((i, x) ∷ d) h = ground (arith, length-put_old k v w d)

  pub length-put-le : (k : K) (v : V) (d : Dict K V) → length (put dec k v d) ≤ length d + 1
  unfolding put
  length-put-le k v [] = omega arith
  length-put-le k v ((i, w) ∷ d) = ground (arith, length-put-le k v d)

  pub length-pop-le : (k : K) (d : Dict K V) → length (pop dec k d) ≤ length d
  unfolding pop
  length-pop-le k [] = omega arith
  length-pop-le k ((i, w) ∷ d) = ground (arith, length-pop-le k d)

  module _ (f : V → ℕ) where
    pub sum-put_new :
        (k : K) (v : V) (d : Dict K V)
        → get dec k d ≡ none
        → sum_values f (put dec k v d) ≡ sum_values f d + f v
    unfolding get put sum_values
    sum-put_new k v [] h = omega arith
    sum-put_new k v ((i, w) ∷ d) h = ground (arith, sum-put_new k v d)

    pub sum-put_old :
        (k : K) (v w : V) (d : Dict K V)
        → get dec k d ≡ some w
        → f v ≡ f w
        → sum_values f (put dec k v d) ≡ sum_values f d
    unfolding get put sum_values
    sum-put_old k v w [] h e = ground arith
    sum-put_old k v w ((i, x) ∷ d) h e = ground (arith, sum-put_old k v w d)

    pub sum-put-le :
        (k : K) (v : V) (d : Dict K V) → sum_values f (put dec k v d) ≤ sum_values f d + f v
    unfolding put sum_values
    sum-put-le k v [] = omega arith
    sum-put-le k v ((i, w) ∷ d) = ground (arith, sum-put-le k v d)

    pub sum-pop-le : (k : K) (d : Dict K V) → sum_values f (pop dec k d) ≤ sum_values f d
    unfolding pop sum_values
    sum-pop-le k [] = omega arith
    sum-pop-le k ((i, w) ∷ d) = ground (arith, sum-pop-le k d)

    pub sum-pop :
        (k : K) (v : V) (d : Dict K V)
        → get dec k d ≡ some v
        → sum_values f (pop dec k d) + f v ≡ sum_values f d
    unfolding get pop sum_values
    sum-pop k v [] h = ground arith
    sum-pop k v ((i, w) ∷ d) h = ground (arith, sum-pop k v d)

    pub value-le-sum : (k : K) (v : V) (d : Dict K V) → get dec k d ≡ some v → f v ≤ sum_values f d
    value-le-sum k v d h = omega (arith, sum-pop k v d h)

  module _ {μ} {P : K → V → Type μ} where
    pub put-Each :
        (k : K) (v : V) (d : Dict K V) → P k v → Each dec P d → Each dec P (put dec k v d)
    put-Each k v d p each j w h = elim (dec k j) [
      | yes e ↦
          let q : get dec j (put dec k v d) ≡ some v = get-put j k v d ∙ if_pos (dec k j) e _ _ in
          rw (← e, ← (same v w (sym q ∙ h))) p
      | no n ↦ each j w (sym (get-put_ne v d n) ∙ h)
    ]
      where
        same : (a b : V) → some a ≡ some b → a ≡ b
        same a b e = cc

    pub pop-Each : (k : K) (d : Dict K V) → IsUnique dec d → Each dec P d → Each dec P (pop dec k d)
    pop-Each k d u each j w h = elim (dec k j) [
      | yes e ↦ absurd (ground (arith, get-pop j k d u))
      | no n ↦ each j w (sym (get-pop_ne j k d n) ∙ h)
    ]
