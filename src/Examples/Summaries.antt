-- ===== src/Examples/Summaries.antt =====
-- Samples, evidence and edges that are summarized.
use claw_tune.Base.{
  ◌<◌, ◌≡◌, refl, true, false, Option, none, some, String, List, [], ◌∷◌, All, length,
  string_discrete, arith,
}
use claw_tune.Dict.{Dict, get}
use claw_tune.KvTtl.{Float, nan}
use claw_tune.Load.{Value, number, boolean, other, reading, half_range}
use claw_tune.Load.Samples.{clean}
use claw_tune.Load.Edges.{
  validate_edges, numbers, has_bad_edge, is_bad_edge, has_step_down, floats, load_bucket_edges,
  default_resource_buckets, resource_edges, has_unknown,
}
use claw_tune.Load.Edges.Laws.{AreBuckets, targets_of, load_bucket_edges-AreBuckets}
use claw_tune.Load.Contract.{LoadTarget, LoadEstimate, Backend, Method, accepts, has_zero, is_blank}
use claw_tune.Load.Summary.{Options, summarize}
use claw_tune.Load.Summary.Laws.{Summarizes, summarize-accepted}
use claw_tune.Load.Pmu.{
  PmuTarget, PmuTarget-discrete, PmuEstimate, PmuTargets, Row, row_of, pmu_name,
  summarize_pmu_evidence, complete_pmu_targets,
}
use claw_tune.Load.Pmu.Laws.{Describes, summarize_pmu_evidence_complete}
use claw_tune.Examples.Arithmetics.{rounding, rounding_laws}

abbrev edges : List Float
edges = reading 2 ∷ reading 10 ∷ []

valid : validate_edges (numbers edges) ≡ some edges
unfolding validate_edges numbers has_bad_edge is_bad_edge has_step_down floats
valid = refl

abbrev samples : List Value
samples = number (reading 7) ∷ number nan ∷ number (reading 1) ∷ boolean true ∷ other ∷ []

small_samples : All (λ n. n < half_range) (clean samples)
unfolding clean half_range
small_samples = (omega arith, (omega arith, tt))

abbrev options : Options
options = record {
  method = Method.direct;
  evidence_counts = [];
  context = [];
  assumptions = [];
  reason = "no_compatible_evidence";
}

no_zero : has_zero [] ≡ false
unfolding has_zero
no_zero = refl

a_reason : is_blank (some "no_compatible_evidence") ≡ false
unfolding is_blank string_discrete
a_reason = refl

summarize-accepted_example :
    (e : LoadEstimate) × (summarize rounding LoadTarget.duration_ms edges Backend.runtime samples
        options
      ≡ some e)
    × (accepts rounding e ≡ true)
    × Summarizes (clean samples) e
summarize-accepted_example =
    summarize-accepted rounding rounding_laws LoadTarget.duration_ms edges Backend.runtime samples
      options valid (omega arith) small_samples no_zero refl a_reason

abbrev evidence : Dict String Row
evidence = ("ipc", record { values = samples; context = "tool" ∷ [] }) ∷ []

small_evidence : (t : PmuTarget) → All (λ n. n < half_range) (clean (row_of evidence t).values)
unfolding clean half_range row_of get string_discrete pmu_name
small_evidence PmuTarget.cycles = tt
small_evidence PmuTarget.instructions = tt
small_evidence PmuTarget.llc_read_accesses = tt
small_evidence PmuTarget.llc_read_misses = tt
small_evidence PmuTarget.ipc = (omega arith, (omega arith, tt))
small_evidence PmuTarget.llc_mpki = tt
small_evidence PmuTarget.llc_miss_rate = tt
small_evidence PmuTarget.llc_read_accesses_per_cpu_second = tt
small_evidence PmuTarget.llc_read_misses_per_cpu_second = tt

summarize_pmu_evidence_complete_example :
    (estimates : PmuTargets) × (summarize_pmu_evidence rounding evidence ≡ some estimates)
    × (complete_pmu_targets estimates ≡ true)
    × ((t : PmuTarget)
        → (e : PmuEstimate) × (get PmuTarget-discrete t estimates ≡ some e)
          × Describes t (length (clean (row_of evidence t).values)) e)
summarize_pmu_evidence_complete_example =
    summarize_pmu_evidence_complete rounding rounding_laws evidence small_evidence

abbrev duration_edges : List Value
duration_edges = number (reading 2) ∷ number (reading 10) ∷ []

abbrev some_buckets : Option (Dict String (List Float)) → Dict String (List Float)
some_buckets none = []
some_buckets (some buckets) = buckets

unfoldable configured : Dict String (List Float)
configured = some_buckets (load_bucket_edges duration_edges [])

loads : load_bucket_edges duration_edges [] ≡ some configured
unfolding load_bucket_edges validate_edges numbers has_bad_edge is_bad_edge has_step_down floats
    default_resource_buckets resource_edges has_unknown get string_discrete configured
loads = refl

load_bucket_edges-AreBuckets_example :
    AreBuckets ("duration_ms" ∷ targets_of default_resource_buckets) configured
load_bucket_edges-AreBuckets_example =
    load_bucket_edges-AreBuckets duration_edges [] configured loads
