-- ===== src/Dict/Keep.antt =====
-- Laws of `keep`, `matching` and `pop_all`.
use mathlib.Core.Logic.{if_neg}
use claw_tune.Base.{
  ℕ, ◌+◌, ◌≤◌, ◌≡◌, ◌≢◌, refl, sym, ◌∙◌, Bool, true, not, none, some, Option, List, [], ◌∷◌, arith,
  length, All, if◌then◌else◌,
}
use claw_tune.Dict.{Dict, get, pop, pop_all, keep, matching, IsUnique, Each, sum_values}

-- `v` where it passes the test.
abbrev pub only {ℓ} : {V : Type ℓ} → (V → Bool) → Option V → Option V
only p none = none
only p (some v) = if p v then some v else none

only-some {ℓ} :
    {V : Type ℓ} (p : V → Bool) (o : Option V) {v : V}
    → only p o ≡ some v
    → (o ≡ some v) × (p v ≡ true)
only-some p none h = cc
only-some p (some w) h = ground arith

module _ {ℓ} {K V : Type ℓ} (p : V → Bool) where
  pub length-keep-le : (d : Dict K V) → length (keep p d) ≤ length d
  unfolding keep
  length-keep-le [] = omega arith
  length-keep-le ((i, w) ∷ d) = ground (arith, length-keep-le d)

  pub sum-keep-le : (f : V → ℕ) (d : Dict K V) → sum_values f (keep p d) ≤ sum_values f d
  unfolding keep sum_values
  sum-keep-le f [] = omega arith
  sum-keep-le f ((i, w) ∷ d) = ground (arith, sum-keep-le f d)

  pub length-matching :
      (d : Dict K V) → length (matching p d) + length (keep (λ v. not (p v)) d) ≡ length d
  unfolding keep matching
  length-matching [] = refl
  length-matching ((i, w) ∷ d) = ground (arith, length-matching d)

module _ {ℓ} {K V : Type ℓ} (dec : Discrete K) (p : V → Bool) where
  pub get-keep :
      (j : K) (d : Dict K V) → IsUnique dec d → get dec j (keep p d) ≡ only p (get dec j d)
  unfolding get keep
  get-keep j [] u = refl
  get-keep j ((i, w) ∷ d) u = elim (dec i j) [
    | yes e ↦ ground (arith, get-keep j d u.1)
    | no n ↦ ground (arith, get-keep j d u.1)
  ]

  get-keep-none : (j : K) (d : Dict K V) → get dec j d ≡ none → get dec j (keep p d) ≡ none
  unfolding get keep
  get-keep-none j [] h = refl
  get-keep-none j ((i, w) ∷ d) h = ground (arith, get-keep-none j d)

  pub keep-IsUnique : (d : Dict K V) → IsUnique dec d → IsUnique dec (keep p d)
  unfolding keep
  keep-IsUnique [] u = tt
  keep-IsUnique ((i, w) ∷ d) u = ground (arith, get-keep-none i d, keep-IsUnique d)

  pub keep-Each {μ} :
      {P : K → V → Type μ} (d : Dict K V) → IsUnique dec d → Each dec P d → Each dec P (keep p d)
  keep-Each d u each j w h = each j w (only-some p (get dec j d) (sym (get-keep j d u) ∙ h)).0

  -- What a kept entry passes.
  pub get-keep-test :
      (j : K) (d : Dict K V) {v : V}
      → IsUnique dec d
      → get dec j (keep p d) ≡ some v
      → (get dec j d ≡ some v) × (p v ≡ true)
  get-keep-test j d u h = only-some p (get dec j d) (sym (get-keep j d u) ∙ h)

  matching_avoids : (k : K) (d : Dict K V) → get dec k d ≡ none → All (λ j. k ≢ j) (matching p d)
  unfolding get matching
  matching_avoids k [] h = tt
  matching_avoids k ((i, w) ∷ d) h = elim (dec i k) [
    | yes e ↦ absurd (ground arith)
    | no n ↦ ground (arith, matching_avoids k d, λ (e : k ≡ i). n (sym e))
  ]

  pop_all_skip :
      (k : K) (w : V) (ks : List K) (d : Dict K V)
      → All (λ j. k ≢ j) ks
      → pop_all dec ks ((k, w) ∷ d) ≡ (k, w) ∷ pop_all dec ks d
  unfolding pop_all pop
  pop_all_skip k w [] d a = refl
  pop_all_skip k w (j ∷ ks) d a = rw (if_neg (dec k j) a.0) (pop_all_skip k w ks (pop dec j d) a.1)

  pub pop_all-matching :
      (d : Dict K V) → IsUnique dec d → pop_all dec (matching p d) d ≡ keep (λ v. not (p v)) d
  unfolding pop_all pop matching keep
  pop_all-matching [] u = refl
  pop_all-matching ((i, w) ∷ d) u =
      ground
        (arith, pop_all-matching d u.1, pop_all_skip i w (matching p d) d (matching_avoids i d u.0))
