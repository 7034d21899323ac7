-- ===== src/Load/Pmu.antt =====
-- services/sidecar/src/clawtune_sidecar/contracts/load_prediction.py: `PmuEstimate`, `PmuPrediction`
-- and `summarize_pmu_evidence`.
pub mod Laws
use claw_tune.Base.{
  ℕ, ◌==◌, Bool, true, false, not, ◌&&◌, ◌||◌, Option, none, some, List, [], ◌∷◌, String, length,
  get_elem?, if◌then◌else◌, is_yes, is_none, is_some, string_discrete,
}
use claw_tune.Dict.{Dict, get, put}
use claw_tune.KvTtl.{Float}
use claw_tune.Load.{Value, reading, Arithmetic}
use claw_tune.Load.Contract.{Status, available, unavailable, is_statistic, in_order, is_blank}
use claw_tune.Load.Samples.{clean, sort, median, p90_index}

-- `PmuTarget`
pub data PmuTarget : Type 0 where
  cycles instructions llc_read_accesses llc_read_misses ipc llc_mpki llc_miss_rate : PmuTarget
  llc_read_accesses_per_cpu_second llc_read_misses_per_cpu_second : PmuTarget

pub PmuTarget-discrete : Discrete PmuTarget
PmuTarget-discrete = hlevel

-- The keys of `PMU_UNITS`.
abbrev pub pmu_targets : List PmuTarget
pmu_targets =
    cycles ∷ instructions ∷ llc_read_accesses ∷ llc_read_misses ∷ ipc ∷ llc_mpki ∷ llc_miss_rate
    ∷ llc_read_accesses_per_cpu_second ∷ llc_read_misses_per_cpu_second ∷ []

-- The key as it is written.
unfoldable pub pmu_name : PmuTarget → String
pmu_name cycles = "cycles"
pmu_name instructions = "instructions"
pmu_name llc_read_accesses = "llc_read_accesses"
pmu_name llc_read_misses = "llc_read_misses"
pmu_name ipc = "ipc"
pmu_name llc_mpki = "llc_mpki"
pmu_name llc_miss_rate = "llc_miss_rate"
pmu_name llc_read_accesses_per_cpu_second = "llc_read_accesses_per_cpu_second"
pmu_name llc_read_misses_per_cpu_second = "llc_read_misses_per_cpu_second"

-- The legal values of `unit`.
pub data PmuUnit : Type 0 where
  instructions_per_cycle misses_per_kilo_instructions ratio_unit count_unit : PmuUnit
  accesses_per_cpu_second misses_per_cpu_second : PmuUnit

unfoldable pub PmuUnit-discrete : Discrete PmuUnit
PmuUnit-discrete = hlevel

-- `PMU_UNITS`
unfoldable pub pmu_units : PmuTarget → PmuUnit
pmu_units cycles = count_unit
pmu_units instructions = count_unit
pmu_units llc_read_accesses = count_unit
pmu_units llc_read_misses = count_unit
pmu_units ipc = instructions_per_cycle
pmu_units llc_mpki = misses_per_kilo_instructions
pmu_units llc_miss_rate = ratio_unit
pmu_units llc_read_accesses_per_cpu_second = accesses_per_cpu_second
pmu_units llc_read_misses_per_cpu_second = misses_per_cpu_second

-- `PMU_DEFINITIONS`
unfoldable pub pmu_definitions : PmuTarget → String
pmu_definitions cycles = "execution_cycles"
pmu_definitions instructions = "execution_instructions"
pmu_definitions llc_read_accesses = "execution_llc_read_accesses"
pmu_definitions llc_read_misses = "execution_llc_read_misses"
pmu_definitions ipc = "retired_instructions_over_cpu_cycles"
pmu_definitions llc_mpki = "llc_read_misses_per_kilo_retired_instructions"
pmu_definitions llc_miss_rate = "llc_read_misses_over_llc_read_accesses"
pmu_definitions llc_read_accesses_per_cpu_second = "llc_read_accesses_over_perf_running_seconds"
pmu_definitions llc_read_misses_per_cpu_second = "llc_read_misses_over_perf_running_seconds"

-- The two legal values of `method`.
pub data PmuMethod : Type 0 where
  direct no_method : PmuMethod

-- `method == "direct"`
abbrev pub is_direct : PmuMethod → Bool
is_direct direct = true
is_direct no_method = false

-- `PmuEstimate`
pub record PmuEstimate : Type 0 where
  pub status : Status
  pub unit : PmuUnit
  pub metric_definition : String
  pub avg : Option Float
  pub p50 : Option Float
  pub p90 : Option Float
  pub method : PmuMethod
  pub evidence_count : ℕ
  pub context : List String
  pub unavailable_reason : Option String

-- `valid_estimate`
unfoldable pub valid_pmu_estimate : PmuEstimate → Bool
valid_pmu_estimate e = elim e.status [
  | available ↦
      not (
        (is_none e.avg || (is_none e.p50 || is_none e.p90))
        || (not (is_direct e.method) || (e.evidence_count == 0 || is_some e.unavailable_reason)))
      && in_order e.p50 e.p90
  | unavailable ↦ not (
      (is_some e.avg || (is_some e.p50 || is_some e.p90))
      || (is_direct e.method || (not (e.evidence_count == 0) || is_blank e.unavailable_reason)))
]

-- `PmuEstimate(…)`, with `none` for the ValidationError.
unfoldable pub new_pmu_estimate : PmuEstimate → Option PmuEstimate
new_pmu_estimate e =
    if (is_statistic e.avg && (is_statistic e.p50 && is_statistic e.p90)) && valid_pmu_estimate e
    then some e
    else none

abbrev pub PmuTargets : Type 0
PmuTargets = Dict PmuTarget PmuEstimate

-- Whether each target has an estimate. No other key is a target.
unfoldable pub has_all_pmu : List PmuTarget → PmuTargets → Bool
has_all_pmu [] estimates = true
has_all_pmu (t ∷ ts) estimates =
    is_some (get PmuTarget-discrete t estimates) && has_all_pmu ts estimates

-- The loop over the estimates: whether one has the wrong unit or definition.
unfoldable pub has_pmu_mismatch : PmuTargets → Bool
has_pmu_mismatch [] = false
has_pmu_mismatch ((t, e) ∷ estimates) =
    (not (is_yes (PmuUnit-discrete e.unit (pmu_units t)))
      || not (is_yes (string_discrete e.metric_definition (pmu_definitions t))))
    || has_pmu_mismatch estimates

-- `complete_targets`
unfoldable pub complete_pmu_targets : PmuTargets → Bool
complete_pmu_targets estimates =
    has_all_pmu pmu_targets estimates && not (has_pmu_mismatch estimates)

-- A row of the evidence: its `values` and its `context`.
pub record Row : Type 0 where
  pub values : List Value
  pub context : List String

-- `evidence.get(target, {})`
unfoldable pub row_of : Dict String Row → PmuTarget → Row
row_of evidence target = elim (get string_discrete (pmu_name target) evidence) [
  | none ↦ record { values = []; context = [] }
  | some row ↦ row
]

abbrev pub pmu_available : PmuTarget → List String → (avg p50 p90 : Float) → ℕ → PmuEstimate
pmu_available target context avg p50 p90 count = record {
  status = available;
  unit = pmu_units target;
  metric_definition = pmu_definitions target;
  avg = some avg;
  p50 = some p50;
  p90 = some p90;
  method = direct;
  evidence_count = count;
  context = context;
  unavailable_reason = none;
}

abbrev pub pmu_unavailable : PmuTarget → PmuEstimate
pmu_unavailable target = record {
  status = unavailable;
  unit = pmu_units target;
  metric_definition = pmu_definitions target;
  avg = none;
  p50 = none;
  p90 = none;
  method = no_method;
  evidence_count = 0;
  context = [];
  unavailable_reason = some "no_compatible_quality_gated_pmu_evidence";
}

-- The estimate of one target from its clean values in order, with `none` for an exception.
unfoldable pub estimate_of : Arithmetic → PmuTarget → List String → List ℕ → Option PmuEstimate
estimate_of f target context [] = new_pmu_estimate (pmu_unavailable target)
estimate_of f target context (v ∷ vs) = elim (median f (v ∷ vs)) [
  | none ↦ none
  | some p50 ↦ elim (get_elem? (v ∷ vs) (p90_index (length (v ∷ vs)))) [
    | none ↦ none
    | some p90 ↦
        new_pmu_estimate
          (pmu_available target context (f.mean (v ∷ vs)) p50 (reading p90) (length (v ∷ vs)))
  ]
]

-- The body of the loop.
unfoldable pub target_estimate : Arithmetic → Dict String Row → PmuTarget → Option PmuEstimate
target_estimate f evidence target =
    estimate_of f target (row_of evidence target).context
      (sort (clean (row_of evidence target).values))

-- The loop over the targets.
unfoldable pub estimates_of :
    Arithmetic → Dict String Row → List PmuTarget → PmuTargets → Option PmuTargets
estimates_of f evidence [] estimates = some estimates
estimates_of f evidence (t ∷ ts) estimates = elim (target_estimate f evidence t) [
  | none ↦ none
  | some e ↦ estimates_of f evidence ts (put PmuTarget-discrete t e estimates)
]

-- `summarize_pmu_evidence`: the targets of the prediction.
unfoldable pub summarize_pmu_evidence : Arithmetic → Dict String Row → Option PmuTargets
summarize_pmu_evidence f evidence = elim (estimates_of f evidence pmu_targets []) [
  | none ↦ none
  | some estimates ↦ if complete_pmu_targets estimates then some estimates else none
]
