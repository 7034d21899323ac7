-- ===== src/Load/Summary.antt =====
-- services/sidecar/src/clawtune_sidecar/predictors/call_load.py: `summarize` without a cache, and the
-- call of it for every target that a prediction without evidence is made of.
pub mod Laws
use claw_tune.Base.{ℕ, Bool, Option, none, some, List, [], ◌∷◌, String, length}
use claw_tune.KvTtl.{Float}
use claw_tune.Load.{Value, Arithmetic}
use claw_tune.Load.Contract.{
  LoadTarget, target_units, target_definitions, LoadEstimate, LoadBuckets, Status, available,
  unavailable, Backend, Method, no_method, new_estimate,
}
use claw_tune.Load.Samples.{clean, numeric_of, Numeric}

-- The keyword arguments.
pub record Options : Type 0 where
  pub method : Method
  pub evidence_counts : List ℕ
  pub context : List String
  pub assumptions : List String
  pub reason : String

abbrev pub without_samples : LoadTarget → List Float → Backend → Options → LoadEstimate
without_samples target edges backend o = record {
  status = unavailable;
  unit = target_units target;
  metric_definition = target_definitions target;
  avg = none;
  p50 = none;
  p90 = none;
  buckets = record { edges = edges; probabilities = none };
  backend = backend;
  method = no_method;
  evidence_counts = [];
  sample_count = 0;
  context = o.context;
  assumptions = o.assumptions;
  unavailable_reason = some o.reason;
}

-- `evidence_counts or [count]`
abbrev pub counts_or : List ℕ → ℕ → List ℕ
counts_or [] count = count ∷ []
counts_or (n ∷ ns) count = n ∷ ns

abbrev pub with_samples : LoadTarget → List Float → Backend → Options → Numeric → ℕ → LoadEstimate
with_samples target edges backend o numeric count = record {
  status = available;
  unit = target_units target;
  metric_definition = target_definitions target;
  avg = some numeric.avg;
  p50 = some numeric.p50;
  p90 = some numeric.p90;
  buckets = record { edges = edges; probabilities = some numeric.probabilities };
  backend = backend;
  method = o.method;
  evidence_counts = counts_or o.evidence_counts count;
  sample_count = count;
  context = o.context;
  assumptions = o.assumptions;
  unavailable_reason = none;
}

-- `summarize` of the clean values, with `none` for an exception.
unfoldable pub summarize_values :
    Arithmetic → LoadTarget → List Float → Backend → Options → List ℕ → Option LoadEstimate
summarize_values f target edges backend o [] =
    new_estimate f (without_samples target edges backend o)
summarize_values f target edges backend o (v ∷ vs) = elim (numeric_of f edges (v ∷ vs)) [
  | none ↦ none
  | some numeric ↦ new_estimate f (with_samples target edges backend o numeric (length (v ∷ vs)))
]

-- `summarize`
unfoldable pub summarize :
    Arithmetic → LoadTarget → List Float → Backend → List Value → Options → Option LoadEstimate
summarize f target edges backend samples o =
    summarize_values f target edges backend o (clean samples)
