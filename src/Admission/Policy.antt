-- ===== src/Admission/Policy.antt =====
-- services/sidecar/src/clawtune_sidecar/policies: `ObserveOnlyPolicy` and `ConcurrencyPolicy`.
pub mod Laws
use claw_tune.Base.{ℕ, Option, none, some, String, List}
use claw_tune.Identity.{Subject, owner_key}
use claw_tune.Admission.Leases.{LeaseManager, Demand}
use claw_tune.Admission.Leases.Ops.{Round, Outcome, acquired, timed_out, pending, acquire}
use claw_tune.Admission.Millis.{Numbers, Value, other, predicted_cpu_millis}

pub data Action : Type 0 where
  allow block : Action

pub record PlacementAdvice : Type 0 where
  pub cpu_set : Option String
  pub numa_node : Option ℕ
  pub llc_cluster : Option String

module _ (n : Numbers) where
  -- The fields of a `ToolPrediction` that the policy reads; the calls are dumped.
  pub record ToolPrediction : Type 0 where
    pub resource_class : String
    pub tool : Option (Value n)
    pub call_prediction : Option (Value n)

  -- `context.prediction.tool or context.prediction.call_prediction`: a model counts as true.
  abbrev pub chosen : ToolPrediction → Value n
  chosen p = elim p.tool [
    | some v ↦ v
    | none ↦ elim p.call_prediction [ some v ↦ v | none ↦ other ]
  ]

  -- `SchedulingContext`
  pub record SchedulingContext : Type 0 where
    pub prediction : ToolPrediction
    pub placement : PlacementAdvice

  pub record ToolDecision : Type 0 where
    pub decision_id : String
    pub action : Action
    pub reason_code : String
    pub reason : String
    pub policy_name : String
    pub policy_version : String
    pub lease_id : Option String
    pub prediction : ToolPrediction
    pub placement_advice : PlacementAdvice

  -- `ObserveOnlyPolicy.decide`; `decision_id` is a new identifier.
  unfoldable pub observe_only : String → SchedulingContext → ToolDecision
  observe_only decision_id context = record {
    decision_id = decision_id;
    action = allow;
    reason_code = "observe_only";
    reason = "Observe-only policy records advice but does not block tool execution.";
    policy_name = "observe-only";
    policy_version = "1";
    lease_id = none;
    prediction = context.prediction;
    placement_advice = context.placement;
  }

  -- What `ConcurrencyPolicy.decide` asks of the lease manager, with the predicted millicores.
  unfoldable pub demand_for : Subject → SchedulingContext → ℕ → Demand
  demand_for request context demand_mcpu = record {
    resource_class = context.prediction.resource_class;
    demand_mcpu = demand_mcpu;
    owner = some (owner_key request);
  }

  -- How `decide` ends: with a decision, with the OverflowError of `_predicted_cpu_millis`, or not yet.
  pub data Verdict : Type 0 where
    decided : ToolDecision → Verdict
    overflow_error undecided : Verdict

  -- The decision for the outcome of the wait. A wait that is not over has no decision yet.
  unfoldable pub decision_for : String → SchedulingContext → Outcome → Verdict
  decision_for decision_id context pending = undecided
  decision_for decision_id context timed_out = decided (record {
    decision_id = decision_id;
    action = block;
    reason_code = "admission_timeout";
    reason = "Admission wait limit elapsed before a lease became available.";
    policy_name = "concurrency";
    policy_version = "3";
    lease_id = none;
    prediction = context.prediction;
    placement_advice = context.placement;
  })
  decision_for decision_id context (acquired lease_id) = decided (record {
    decision_id = decision_id;
    action = allow;
    reason_code = "lease_acquired";
    reason = "A bounded concurrency lease was acquired.";
    policy_name = "concurrency";
    policy_version = "3";
    lease_id = some lease_id;
    prediction = context.prediction;
    placement_advice = context.placement;
  })

  -- `ConcurrencyPolicy.decide`
  unfoldable pub decide :
      (admission_wait_ms : ℕ)
      → Subject
      → SchedulingContext
      → (decision_id : String) → (start : ℕ) → List Round
      → LeaseManager
      → Verdict × LeaseManager
  decide admission_wait_ms request context decision_id start rounds m =
      elim (predicted_cpu_millis n (chosen context.prediction)) [
        | none ↦ (overflow_error, m)
        | some demand_mcpu ↦
            let demand = demand_for request context demand_mcpu in
            let (outcome, m') = acquire demand admission_wait_ms start rounds m in
            (decision_for decision_id context outcome, m')
      ]
