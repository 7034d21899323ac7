-- ===== src/Load/Samples.antt =====
-- services/sidecar/src/clawtune_sidecar/predictors/call_load.py: `_sample_summary` without a cache,
-- the statistics of the samples that are numbers.
pub mod Laws
pub mod Total
use claw_tune.Base.{
  ℕ, zero, suc, ◌+◌, ◌-◌, ◌*◌, ◌/◌, ◌%◌, pos, negsuc, leb, ◌==◌, Bool, Option, none, some, List, [],
  ◌∷◌, length, get_elem?, if◌then◌else◌,
}
use claw_tune.KvTtl.{Float, fin, bisect_right}
use claw_tune.Load.{Value, number, reading, Arithmetic, ratios}

-- The samples that are finite numbers and not negative, as counts of units.
unfoldable pub clean : List Value → List ℕ
clean [] = []
clean (number (fin (pos n)) ∷ vs) = n ∷ clean vs
clean (_ ∷ vs) = clean vs

-- `sorted(values)`
unfoldable pub insert_sorted : ℕ → List ℕ → List ℕ
insert_sorted n [] = n ∷ []
insert_sorted n (m ∷ ms) = let rest = insert_sorted n ms in if leb n m then n ∷ m ∷ ms else m ∷ rest

unfoldable pub sort : List ℕ → List ℕ
sort [] = []
sort (n ∷ ns) = insert_sorted n (sort ns)

-- `counts[i] += 1`, with `none` for the IndexError.
unfoldable pub bump : ℕ → List ℕ → Option (List ℕ)
bump i [] = none
bump zero (n ∷ ns) = some (suc n ∷ ns)
bump (suc i) (n ∷ ns) = elim (bump i ns) [ none ↦ none | some ms ↦ some (n ∷ ms) ]

-- `[0] * n`
unfoldable pub zeros : ℕ → List ℕ
zeros zero = []
zeros (suc n) = 0 ∷ zeros n

-- The loop that counts the values of each bucket.
unfoldable pub count_buckets : List Float → List ℕ → List ℕ → Option (List ℕ)
count_buckets edges [] counts = some counts
count_buckets edges (v ∷ vs) counts = elim (bump (bisect_right edges (reading v)) counts) [
  | none ↦ none
  | some counts' ↦ count_buckets edges vs counts'
]

-- `math.ceil(0.9 * count) - 1`. The float product rounds to the exact one where that is whole.
unfoldable pub p90_index : ℕ → ℕ
p90_index count = (9 * count + 9) / 10 - 1

-- `statistics.median` of a list in order, with `none` for the IndexError.
unfoldable pub median : Arithmetic → List ℕ → Option Float
median f ordered =
    let middle = length ordered / 2 in
    if length ordered % 2 == 1
    then elim (get_elem? ordered middle) [ none ↦ none | some n ↦ some (reading n) ]
    else elim (get_elem? ordered (middle - 1)) [
      | none ↦ none
      | some a ↦ elim (get_elem? ordered middle) [ none ↦ none | some b ↦ some (f.half_sum a b) ]
    ]

-- The tuple `numeric`.
pub record Numeric : Type 0 where
  pub avg : Float
  pub p50 : Float
  pub p90 : Float
  pub probabilities : List Float

-- `numeric` of one or more values, with `none` for an IndexError.
unfoldable pub numeric_of : Arithmetic → List Float → List ℕ → Option Numeric
numeric_of f edges values =
    let ordered = sort values in
    let count = length values in
    elim (count_buckets edges ordered (zeros (length edges + 1))) [
      | none ↦ none
      | some counts ↦ elim (median f ordered) [
        | none ↦ none
        | some p50 ↦ elim (get_elem? ordered (p90_index count)) [
          | none ↦ none
          | some p90 ↦ some (record {
            avg = f.mean ordered;
            p50 = p50;
            p90 = reading p90;
            probabilities = ratios f count counts;
          })
        ]
      ]
    ]
