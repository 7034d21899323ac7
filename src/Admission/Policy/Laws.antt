-- ===== src/Admission/Policy/Laws.antt =====
-- What a decision of `ConcurrencyPolicy` means for the lease manager.
use claw_tune.Base.{
  ℕ, ◌+◌, ◌≡◌, ◌≢◌, refl, ◌⊎◌, inl, inr, none, some, String, List, Option-cases, arith,
  string_discrete,
}
use claw_tune.Dict.{get}
use claw_tune.Identity.{Subject, owner_key}
use claw_tune.Admission.Leases.{LeaseManager, Lease, ms, clamp_demand}
use claw_tune.Admission.Leases.Ops.{Round, Outcome, acquired, timed_out, pending, acquire}
use claw_tune.Admission.Leases.Waiting.{
  ReachesDeadline, IsGrant, acquire-IsGrant, acquire_patient, acquire_returns,
}
use claw_tune.Admission.Millis.{Numbers, predicted_cpu_millis}
use claw_tune.Admission.Policy.{
  SchedulingContext, ToolDecision, chosen, Verdict, decided, overflow_error, undecided, allow,
  block, demand_for, decision_for, decide,
}

module _ (n : Numbers) (wait_ms : ℕ) (request : Subject) (context : SchedulingContext n)
    (decision_id : String) (start : ℕ) (rounds : List Round) (m : LeaseManager) where
  abbrev verdict : Verdict n × LeaseManager
  verdict = decide n wait_ms request context decision_id start rounds m

  -- The decision allows the call, and the caller owns a lease for it.
  pub record Allows (d : ToolDecision n) (m' : LeaseManager) : Type 0 where
    pub action : d.action ≡ allow
    pub lease_id : String
    pub lease : Lease
    pub demand_mcpu : ℕ
    pub predicted : predicted_cpu_millis n (chosen n context.prediction) ≡ some demand_mcpu
    pub given : d.lease_id ≡ some lease_id
    pub stored : get string_discrete lease_id m'.leases ≡ some lease
    pub owner : lease.owner ≡ some (owner_key request)
    pub resource_class : lease.resource_class ≡ context.prediction.resource_class
    pub demand : lease.demand_mcpu ≡ clamp_demand m.cpu_budget_mcpu demand_mcpu
    pub granted :
        IsGrant (demand_for n request context demand_mcpu) m.cpu_budget_mcpu lease_id lease

  -- The decision blocks the call for want of a lease.
  pub record Blocks (d : ToolDecision n) : Type 0 where
    pub action : d.action ≡ block
    pub none_given : d.lease_id ≡ none
    pub waited : ReachesDeadline (start + ms wait_ms) rounds

  module _ (k : ℕ) (predicted : predicted_cpu_millis n (chosen n context.prediction) ≡ some k) where
    decided-cases :
        (o : Outcome) (d : ToolDecision n)
        → (acquire (demand_for n request context k) wait_ms start rounds m).0 ≡ o
        → decision_for n decision_id context o ≡ decided d
        → Allows d (acquire (demand_for n request context k) wait_ms start rounds m).1 ⊎ Blocks d
    unfolding decision_for demand_for
    decided-cases (acquired id) d e h =
        let (l, found, own) =
          acquire-IsGrant (demand_for n request context k) wait_ms start rounds m id e in
        inl (record {
          action = ground (arith, h);
          lease_id = id;
          lease = l;
          demand_mcpu = k;
          predicted = predicted;
          given = ground (arith, h);
          stored = found;
          owner = own.own_owner;
          resource_class = own.own_class;
          demand = own.own_demand;
          granted = own;
        })
    decided-cases timed_out d e h = inr (record {
      action = ground (arith, h);
      none_given = ground (arith, h);
      waited = acquire_patient (demand_for n request context k) wait_ms start rounds m e;
    })
    decided-cases pending d e h = absurd cc

  -- A decision allows the call only with a lease that is stored for its owner with the clamped predicted
  -- demand; it is blocked only without one, after the whole wait.
  pub decide_sound : (d : ToolDecision n) → verdict.0 ≡ decided d → Allows d verdict.1 ⊎ Blocks d
  unfolding decide
  decide_sound d h = elim (Option-cases (predicted_cpu_millis n (chosen n context.prediction))) [
    | inl too_large ↦ absurd (ground (arith, too_large, h))
    | inr (k, e) ↦ rw (e, decide) (decided-cases k e _ d refl (rw (e, decide) at h))
  ]

  -- If some round of the wait reads the clock at the deadline or later, there is a decision or an
  -- OverflowError.
  pub decide_returns : ReachesDeadline (start + ms wait_ms) rounds → verdict.0 ≢ undecided
  unfolding decide decision_for
  decide_returns late h =
      elim (Option-cases (predicted_cpu_millis n (chosen n context.prediction))) [
        | inl too_large ↦ absurd (ground (arith, too_large, h))
        | inr (k, e) ↦ absurd (
            ground (
              arith,
              e,
              h,
              acquire_returns (demand_for n request context k) wait_ms start rounds m late,
            ))
      ]

  -- Where the prediction is too large for a float, there is no decision and the manager is left as it is.
  decide_overflow :
      predicted_cpu_millis n (chosen n context.prediction) ≡ none → verdict ≡ (overflow_error, m)
  unfolding decide
  decide_overflow h = rw (h, decide) refl
