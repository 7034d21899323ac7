-- ===== src/Load.antt =====
-- services/sidecar/src/clawtune_sidecar/predictors/call_load.py,
-- services/sidecar/src/clawtune_sidecar/contracts/load_prediction.py and
-- services/sidecar/src/clawtune_sidecar/prediction_config.py: the predictions of load that are made
-- from samples. Here: Python values, the numbers among them, and the arithmetic of floats that the
-- code leaves to the interpreter.
pub mod Samples
pub mod Edges
pub mod Contract
pub mod Summary
pub mod Pmu
pub mod Groups
use Prim.Native.Nat.{◌^◌}
use claw_tune.Base.{
  ℕ, zero, suc, ◌+◌, ◌-◌, ◌*◌, ◌/◌, ◌≤◌, ◌<◌, ◌≡◌, ℤ, pos, negsuc, leb, Bool, true, false, List, [],
  ◌∷◌, All, length, if◌then◌else◌,
}
use claw_tune.KvTtl.{Float, fin}

-- A Python value. A number of type `int` stands for the float that it is converted to.
pub data Value : Type 0 where
  number : Float → Value
  boolean : Bool → Value
  other : Value

-- A finite float that is not negative, from its count of units of 2^-1074.
abbrev pub reading : ℕ → Float
reading n = fin (pos n)

-- 2^1023 in these units. The sum of two floats below it is finite.
unfoldable pub half_range : ℕ
half_range = 2 ^ 2097

-- The arithmetic: `statistics.mean`, `(a + b) / 2`, `n / count`, and
-- `math.isclose(sum(ps), 1.0, abs_tol=1e-9)`.
pub record Arithmetic : Type 0 where
  pub mean : List ℕ → Float
  pub half_sum : ℕ → ℕ → Float
  pub ratio : ℕ → ℕ → Float
  pub sums_to_one : List Float → Bool

abbrev pub total : List ℕ → ℕ
total [] = 0
total (n ∷ ns) = n + total ns

abbrev pub ratios : Arithmetic → ℕ → List ℕ → List Float
ratios f count [] = []
ratios f count (n ∷ ns) = f.ratio n count ∷ ratios f count ns

-- 1.0 in these units.
unfoldable pub one : ℕ
one = 2 ^ 1074

-- What rounding to the nearest float keeps: a mean is no more than a bound of its samples and not
-- negative, half of a sum that does not overflow lies between its terms, a part over the whole lies
-- between 0 and 1, and the parts of a whole, at most 2^20 of them, sum to one up to the tolerance.
pub record ArithmeticLaws (f : Arithmetic) : Type 0 where
  pub mean_range :
      (hi n : ℕ) (ns : List ℕ)
      → All (λ x. x ≤ hi) (n ∷ ns)
      → (m : ℕ) × (f.mean (n ∷ ns) ≡ reading m) × (m ≤ hi)
  pub half_sum_range :
      (a b : ℕ)
      → a ≤ b
      → b < half_range
      → (m : ℕ) × (f.half_sum a b ≡ reading m) × (a ≤ m) × (m ≤ b)
  pub ratio_range :
      (n count : ℕ) → n ≤ count → 0 < count → (m : ℕ) × (f.ratio n count ≡ reading m) × (m ≤ one)
  pub ratio_total :
      (ns : List ℕ)
      → 0 < total ns
      → length ns ≤ 1048576
      → f.sums_to_one (ratios f (total ns) ns) ≡ true
