-- ===== src/Dict.antt =====
-- A Python dict as a list of entries in insertion order.
pub mod Laws
pub mod Keep
use mathlib.Core.Logic.{ite}
use claw_tune.Base.{ℕ, ◌+◌, ◌≡◌, Bool, Option, none, some, List, [], ◌∷◌, if◌then◌else◌}

abbrev pub Dict {ℓ} : Type ℓ → Type ℓ → Type ℓ
Dict K V = List (K × V)

module _ {ℓ} {K V : Type ℓ} where
  -- `d.values()`
  abbrev pub values : Dict K V → List V
  values [] = []
  values ((_, v) ∷ d) = v ∷ values d

  -- The entries whose value passes the test, in order.
  unfoldable pub keep : (V → Bool) → Dict K V → Dict K V
  keep p [] = []
  keep p ((k, v) ∷ d) = let rest = keep p d in if p v then (k, v) ∷ rest else rest

  -- `[k for k, v in d.items() if p(v)]`
  unfoldable pub matching : (V → Bool) → Dict K V → List K
  matching p [] = []
  matching p ((k, v) ∷ d) = let rest = matching p d in if p v then k ∷ rest else rest

  -- `sum(f(v) for v in d.values())`
  unfoldable pub sum_values : (V → ℕ) → Dict K V → ℕ
  sum_values f [] = 0
  sum_values f ((_, v) ∷ d) = f v + sum_values f d

module _ {ℓ} {K V : Type ℓ} (dec : Discrete K) where
  -- `d.get(k)`
  unfoldable pub get : K → Dict K V → Option V
  get k [] = none
  get k ((j, v) ∷ d) = ite (dec j k) (some v) (get k d)

  -- `d[k] = v`: an old key keeps its place, a new one is appended.
  unfoldable pub put : K → V → Dict K V → Dict K V
  put k v [] = (k, v) ∷ []
  put k v ((j, w) ∷ d) = ite (dec j k) ((j, v) ∷ d) ((j, w) ∷ put k v d)

  -- `d.pop(k, None)`
  unfoldable pub pop : K → Dict K V → Dict K V
  pop k [] = []
  pop k ((j, w) ∷ d) = ite (dec j k) d ((j, w) ∷ pop k d)

  -- `for k in ks: d.pop(k, None)`
  unfoldable pub pop_all : List K → Dict K V → Dict K V
  pop_all [] d = d
  pop_all (k ∷ ks) d = pop_all ks (pop k d)

  -- No key stands twice.
  abbrev pub IsUnique : Dict K V → Type ℓ
  IsUnique [] = Unit
  IsUnique ((k, v) ∷ d) = (get k d ≡ none) × IsUnique d

  -- Every entry that a lookup finds has the property.
  abbrev pub Each {μ} : (K → V → Type μ) → Dict K V → Type (ℓ ⊔ μ)
  Each P d = (k : K) (v : V) → get k d ≡ some v → P k v
