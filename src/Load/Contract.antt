-- ===== src/Load/Contract.antt =====
-- services/sidecar/src/clawtune_sidecar/contracts/load_prediction.py: `LoadBuckets`, `LoadEstimate`,
-- `ClauseLoadPrediction` and `CallLoadPrediction` with their validators. A field with one legal
-- value has no place here, and a value of an enumeration is legal by its type.
use claw_tune.Base.{
  ℕ, ◌+◌, ◌==◌, Bool, true, false, not, ◌&&◌, ◌||◌, Option, none, some, List, [], ◌∷◌, String,
  length, if◌then◌else◌, is_yes, is_none, is_some, string_discrete,
}
use claw_tune.Dict.{Dict, get}
use claw_tune.KvTtl.{Float, float_lt, float_le, is_finite, zero_float}
use claw_tune.Load.{reading, one, Arithmetic}
use claw_tune.Load.Edges.{is_empty, validate_edges, numbers}

-- `LoadTarget`
pub data LoadTarget : Type 0 where
  duration_ms cpu_time_seconds cpu_avg_cores cpu_peak_cores sampled_peak_rss_bytes : LoadTarget
  memory_total_peak_bytes memory_extra_peak_bytes : LoadTarget

pub LoadTarget-discrete : Discrete LoadTarget
LoadTarget-discrete = hlevel

-- The keys of `TARGET_UNITS`.
abbrev pub load_targets : List LoadTarget
load_targets =
    duration_ms ∷ cpu_time_seconds ∷ cpu_avg_cores ∷ cpu_peak_cores ∷ sampled_peak_rss_bytes
    ∷ memory_total_peak_bytes ∷ memory_extra_peak_bytes ∷ []

-- The legal values of `unit`.
pub data LoadUnit : Type 0 where
  ms core_seconds cores bytes : LoadUnit

unfoldable pub LoadUnit-discrete : Discrete LoadUnit
LoadUnit-discrete = hlevel

-- `TARGET_UNITS`
unfoldable pub target_units : LoadTarget → LoadUnit
target_units duration_ms = ms
target_units cpu_time_seconds = core_seconds
target_units cpu_avg_cores = cores
target_units cpu_peak_cores = cores
target_units sampled_peak_rss_bytes = bytes
target_units memory_total_peak_bytes = bytes
target_units memory_extra_peak_bytes = bytes

-- `TARGET_DEFINITIONS`
unfoldable pub target_definitions : LoadTarget → String
target_definitions duration_ms = "retained_workload_elapsed"
target_definitions cpu_time_seconds = "owned_workload_cpu_time"
target_definitions cpu_avg_cores = "owned_cpu_time_over_retained_workload_elapsed"
target_definitions cpu_peak_cores = "owned_cpu_fixed_500ms_window_peak"
target_definitions sampled_peak_rss_bytes = "ebpf_sampled_distinct_mm_rss_peak"
target_definitions memory_total_peak_bytes = "environment_memory_total_peak"
target_definitions memory_extra_peak_bytes = "environment_memory_peak_minus_baseline"

-- The definitions with the two entries that a clause replaces.
unfoldable pub clause_definitions : LoadTarget → String
clause_definitions duration_ms = "clause_elapsed"
clause_definitions cpu_avg_cores = "owned_cpu_time_over_clause_elapsed"
clause_definitions target = target_definitions target

-- `LoadBuckets`
pub record LoadBuckets : Type 0 where
  pub edges : List Float
  pub probabilities : Option (List Float)

-- `any(p < 0 or p > 1 for p in probabilities)`
unfoldable pub has_bad_probability : List Float → Bool
has_bad_probability [] = false
has_bad_probability (p ∷ ps) =
    (float_lt p zero_float || float_lt (reading one) p) || has_bad_probability ps

-- `allow_inf_nan=False` on a list of floats.
unfoldable pub all_finite : List Float → Bool
all_finite [] = true
all_finite (x ∷ xs) = is_finite x && all_finite xs

abbrev pub is_distribution : Arithmetic → LoadBuckets → Bool
is_distribution f b = elim b.probabilities [
  | none ↦ true
  | some ps ↦
      all_finite ps
      && (length ps == length b.edges + 1 && (not (has_bad_probability ps) && f.sums_to_one ps))
]

-- `valid_buckets`: whether the buckets are accepted.
unfoldable pub valid_buckets : Arithmetic → LoadBuckets → Bool
valid_buckets f b = is_some (validate_edges (numbers b.edges)) && is_distribution f b

pub data Status : Type 0 where
  available unavailable : Status

pub data Backend : Type 0 where
  runtime trie lattice : Backend

pub data Method : Type 0 where
  direct composed no_method : Method

-- `method == "unavailable"`
abbrev pub is_no_method : Method → Bool
is_no_method no_method = true
is_no_method _ = false

-- `LoadEstimate`
pub record LoadEstimate : Type 0 where
  pub status : Status
  pub unit : LoadUnit
  pub metric_definition : String
  pub avg : Option Float
  pub p50 : Option Float
  pub p90 : Option Float
  pub buckets : LoadBuckets
  pub backend : Backend
  pub method : Method
  pub evidence_counts : List ℕ
  pub sample_count : ℕ
  pub context : List String
  pub assumptions : List String
  pub unavailable_reason : Option String

-- `Field(default=None, ge=0)` of a model without infinities and NaN.
unfoldable pub is_statistic : Option Float → Bool
is_statistic none = true
is_statistic (some x) = is_finite x && float_le zero_float x

-- `any(n <= 0 for n in evidence_counts)`
unfoldable pub has_zero : List ℕ → Bool
has_zero [] = false
has_zero (n ∷ ns) = n == 0 || has_zero ns

-- `p50 <= p90`, on numbers.
unfoldable pub in_order : Option Float → Option Float → Bool
in_order (some a) (some b) = not (float_lt b a)
in_order _ _ = true

-- `not reason`: absent or empty.
unfoldable pub is_blank : Option String → Bool
is_blank none = true
is_blank (some s) = is_yes (string_discrete s "")

abbrev pub any_none : LoadEstimate → Bool
any_none e = is_none e.avg || (is_none e.p50 || (is_none e.p90 || is_none e.buckets.probabilities))

abbrev pub any_some : LoadEstimate → Bool
any_some e = is_some e.avg || (is_some e.p50 || (is_some e.p90 || is_some e.buckets.probabilities))

-- `valid_estimate`
unfoldable pub valid_estimate : LoadEstimate → Bool
valid_estimate e = elim e.status [
  | available ↦
      not (
        any_none e
        || (is_some e.unavailable_reason
            || (is_no_method e.method
                || (e.sample_count == 0
                    || (is_empty e.evidence_counts || has_zero e.evidence_counts)))))
      && in_order e.p50 e.p90
  | unavailable ↦ not (
      any_some e
      || (is_blank e.unavailable_reason
          || (not (is_no_method e.method) || not (e.sample_count == 0))))
]

-- Whether the constructor accepts the fields: its buckets, the fields by themselves, the validator.
unfoldable pub accepts : Arithmetic → LoadEstimate → Bool
accepts f e =
    valid_buckets f e.buckets
    && ((is_statistic e.avg && (is_statistic e.p50 && is_statistic e.p90)) && valid_estimate e)

-- `LoadEstimate(…)`, with `none` for the ValidationError.
unfoldable pub new_estimate : Arithmetic → LoadEstimate → Option LoadEstimate
new_estimate f e = if accepts f e then some e else none

abbrev pub Targets : Type 0
Targets = Dict LoadTarget LoadEstimate

-- Whether each target has an estimate. No other key is a target.
unfoldable pub has_all : List LoadTarget → Targets → Bool
has_all [] estimates = true
has_all (t ∷ ts) estimates = is_some (get LoadTarget-discrete t estimates) && has_all ts estimates

-- The loop over the estimates: whether one has the wrong unit or definition.
unfoldable pub has_mismatch : (LoadTarget → String) → Targets → Bool
has_mismatch definitions [] = false
has_mismatch definitions ((t, e) ∷ estimates) =
    (not (is_yes (LoadUnit-discrete e.unit (target_units t)))
      || not (is_yes (string_discrete e.metric_definition (definitions t))))
    || has_mismatch definitions estimates

-- The legal values of `memory_measurement`.
pub data MemoryMeasurement : Type 0 where
  cgroup_v2_memory_current cgroup_v2_environment_union_v1 : MemoryMeasurement
  guest_memtotal_minus_memavailable : MemoryMeasurement

-- `ClauseLoadPrediction`
pub record ClauseLoadPrediction : Type 0 where
  pub clause_index : ℕ
  pub memory_measurement : MemoryMeasurement
  pub argv : List String
  pub cwd : Option String
  pub env_names : List String
  pub targets : Targets

-- `complete_targets` of a clause
unfoldable pub complete_clause_targets : ClauseLoadPrediction → Bool
complete_clause_targets p =
    (has_all load_targets p.targets && not (is_empty p.argv))
    && not (has_mismatch clause_definitions p.targets)

-- `CallLoadPrediction`
pub record CallLoadPrediction : Type 0 where
  pub memory_measurement : MemoryMeasurement
  pub targets : Targets
  pub clause_predictions : List ClauseLoadPrediction

-- `complete_targets`
unfoldable pub complete_targets : CallLoadPrediction → Bool
complete_targets p =
    has_all load_targets p.targets && not (has_mismatch target_definitions p.targets)
