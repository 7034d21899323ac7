-- ===== src/Load/Edges.antt =====
-- services/sidecar/src/clawtune_sidecar/prediction_config.py: the edges of the buckets.
pub mod Laws
use Prim.Native.Nat.{◌^◌}
use claw_tune.Base.{
  ℕ, ◌*◌, ◌-◌, ◌≡◌, ℤ, pos, Bool, true, false, not, ◌&&◌, ◌||◌, Option, none, some, List, [], ◌∷◌,
  String, if◌then◌else◌, is_yes, is_some, string_discrete, map,
}
use claw_tune.Dict.{Dict, get}
use claw_tune.KvTtl.{Float, fin, float_lt, float_le, is_finite, zero_float}
use claw_tune.Load.{Value, number, boolean, other, reading}

-- Whether `validate_edges` refuses the value.
unfoldable pub is_bad_edge : Value → Bool
is_bad_edge (number x) = not (is_finite x) || float_le x zero_float
is_bad_edge (boolean _) = true
is_bad_edge other = true

unfoldable pub has_bad_edge : List Value → Bool
has_bad_edge [] = false
has_bad_edge (v ∷ vs) = is_bad_edge v || has_bad_edge vs

-- `float(x)` of the values that are numbers.
unfoldable pub floats : List Value → List Float
floats [] = []
floats (number x ∷ vs) = x ∷ floats vs
floats (_ ∷ vs) = floats vs

-- A list of floats as the values that they are.
unfoldable pub numbers : List Float → List Value
numbers [] = []
numbers (x ∷ xs) = number x ∷ numbers xs

-- `any(a >= b for a, b in zip(values, values[1:]))`
unfoldable pub has_step_down : List Float → Bool
has_step_down [] = false
has_step_down (a ∷ []) = false
has_step_down (a ∷ b ∷ bs) = float_le b a || has_step_down (b ∷ bs)

abbrev pub is_empty {ℓ} : {A : Type ℓ} → List A → Bool
is_empty [] = true
is_empty (_ ∷ _) = false

-- `validate_edges`, with `none` for the ValueError.
unfoldable pub validate_edges : List Value → Option (List Float)
validate_edges edges =
    if is_empty edges || has_bad_edge edges
    then none
    else if has_step_down (floats edges)
    then none
    else some (floats edges)

-- The float `m / 2^e`.
abbrev double : ℕ → ℕ → Value
double m e = number (reading (m * 2 ^ (1074 - e)))

abbrev mebibytes : ℕ → Value
mebibytes n = double (n * 1048576) 0

abbrev memory_edges : List Value
memory_edges = mebibytes 16 ∷ mebibytes 64 ∷ mebibytes 256 ∷ mebibytes 1024 ∷ mebibytes 4096 ∷ []

-- `DEFAULT_RESOURCE_BUCKETS`
unfoldable pub default_resource_buckets : Dict String (List Value)
default_resource_buckets =
    (
      "cpu_time_seconds",
      double 5764607523034235 59
          ∷ double 3602879701896397 55
          ∷ double 1 0
          ∷ double 10 0
          ∷ double 60 0
          ∷ [],
    )
    ∷ (
      "cpu_avg_cores",
      double 3602879701896397 55
          ∷ double 1 1
          ∷ double 1 0
          ∷ double 2 0
          ∷ double 4 0
          ∷ double 8 0
          ∷ [],
    )
    ∷ (
      "cpu_peak_cores",
      double 1 1 ∷ double 1 0 ∷ double 2 0 ∷ double 4 0 ∷ double 8 0 ∷ double 16 0 ∷ [],
    )
    ∷ ("sampled_peak_rss_bytes", memory_edges)
    ∷ ("memory_total_peak_bytes", memory_edges)
    ∷ ("memory_extra_peak_bytes", memory_edges)
    ∷ []

-- Whether a key of the overrides is not among the defaults.
unfoldable pub has_unknown : Dict String (List Value) → Bool
has_unknown [] = false
has_unknown ((target, _) ∷ overrides) =
    not (is_some (get string_discrete target default_resource_buckets)) || has_unknown overrides

abbrev pub override : Dict String (List Value) → String → List Value → List Value
override overrides target default = elim (get string_discrete target overrides) [
  | none ↦ default
  | some edges ↦ edges
]

-- The comprehension over the defaults.
unfoldable pub resource_edges :
    Dict String (List Value) → Dict String (List Value) → Option (Dict String (List Float))
resource_edges overrides [] = some []
resource_edges overrides ((target, default) ∷ rest) =
    elim (validate_edges (override overrides target default)) [
      | none ↦ none
      | some edges ↦ elim (resource_edges overrides rest) [
        | none ↦ none
        | some buckets ↦ some ((target, edges) ∷ buckets)
      ]
    ]

-- `load_bucket_edges`. `resources` of None is the empty dictionary.
unfoldable pub load_bucket_edges :
    List Value → Dict String (List Value) → Option (Dict String (List Float))
load_bucket_edges duration_edges overrides =
    if has_unknown overrides then none else elim (validate_edges duration_edges) [
      | none ↦ none
      | some edges ↦ elim (resource_edges overrides default_resource_buckets) [
        | none ↦ none
        | some buckets ↦ some (("duration_ms", edges) ∷ buckets)
      ]
    ]
