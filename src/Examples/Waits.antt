-- ===== src/Examples/Waits.antt =====
-- Waits for a lease, and the decisions that they lead to.
use claw_tune.Base.{
  ℕ, ◌+◌, ◌*◌, ◌≡◌, ◌≢◌, ◌⊎◌, ◌==◌, refl, inl, inr, true, false, none, some, ltb, if◌then◌else◌,
  List, [], ◌∷◌, arith, string_discrete, option_discrete,
}
use claw_tune.Dict.{get, put, pop, pop_all, matching, sum_values}
use claw_tune.Identity.{Subject, missing, text, owner_key, string_attr, truthy, same}
use claw_tune.Admission.Leases.{
  Lease, clamp_demand, expire, try_acquire, release, owner_satisfies, ms,
}
use claw_tune.Admission.Leases.Ops.{
  release_lease, Round, acquired, timed_out, pending, step, run, acquire, poll,
}
use claw_tune.Admission.Leases.Waiting.{
  ReachesDeadline, IsGrant, acquire_returns, acquire_patient, acquire-IsGrant,
}
use claw_tune.Admission.Millis.{Numbers, predicted_cpu_millis}
use claw_tune.Admission.Policy.{
  SchedulingContext, ToolDecision, decided, allow, demand_for, decision_for, decide,
}
use claw_tune.Admission.Policy.Laws.{Allows, Blocks, decide_sound}
use claw_tune.Examples.Admitting.{alice, huge, busy}

-- The first round finds a lease in the way; meanwhile it is released, and the second round grants.
abbrev rounds : List Round
rounds =
    record {
      now = 10;
      stored = 11;
      fresh = "b";
      checked = 12;
      others = release_lease (some "a") (some alice) ∷ [];
    }
    ∷ record { now = 60000; stored = 60001; fresh = "c"; checked = 900000; others = [] }
    ∷ []

program : Unit {0}
unfolding get put pop pop_all matching sum_values string_discrete option_discrete same expire
    clamp_demand try_acquire release owner_satisfies step run poll acquire decision_for decide
    demand_for owner_key string_attr truthy predicted_cpu_millis
program = tt

acquire_returns_example : (acquire huge 100 0 rounds busy).0 ≢ pending
acquire_returns_example = acquire_returns huge 100 0 rounds busy (inr (inl (ground arith)))

granted : (acquire huge 100 0 rounds busy).0 ≡ acquired "c"
unfolding program
granted = refl

acquire-IsGrant_example :
    (l : Lease) × (get string_discrete "c" (acquire huge 100 0 rounds busy).1.leases ≡ some l)
    × IsGrant huge (some 4000) "c" l
acquire-IsGrant_example = acquire-IsGrant huge 100 0 rounds busy "c" granted

abbrev late : List Round
late = record { now = 10; stored = 11; fresh = "b"; checked = 100000; others = [] } ∷ []

gave_up : (acquire huge 100 0 late busy).0 ≡ timed_out
unfolding program
gave_up = refl

acquire_patient_example : ReachesDeadline (0 + ms 100) late
acquire_patient_example = acquire_patient huge 100 0 late busy gave_up

-- Whole numbers as the numbers of a prediction, where a float ends at 500000 and an int of 1000 or
-- more is too large for it.
abbrev pub whole : Numbers
whole = record {
  Number = ℕ;
  is_finite = λ x. if ltb x 1000 then some true else none;
  is_negative = λ x. false;
  is_500 = λ x. x == 500;
  ceil_millis = λ x. if ltb x 500 then some (x * 1000) else none;
}

abbrev request : Subject
request = record {
  gateway_id = text "g";
  runtime_id = text "r";
  agent_id = missing;
  session_id = missing;
  session_key = missing;
  session_key_hash = missing;
  run_id = missing;
  event_id = missing;
  tool_call_id = missing;
}

abbrev context : SchedulingContext whole
context = record {
  prediction = record { resource_class = "cpu"; tool = none; call_prediction = none };
  placement = record { cpu_set = none; numa_node = none; llc_cluster = none };
}

abbrev decision : ToolDecision whole
decision = record {
  decision_id = "d";
  action = allow;
  reason_code = "lease_acquired";
  reason = "A bounded concurrency lease was acquired.";
  policy_name = "concurrency";
  policy_version = "3";
  lease_id = some "b";
  prediction = context.prediction;
  placement_advice = context.placement;
}

decides : (decide whole 100 request context "d" 0 rounds busy).0 ≡ decided decision
unfolding program
decides = refl

decide_sound_example :
    Allows whole 100 request context "d" 0 rounds busy decision
      (decide whole 100 request context "d" 0 rounds busy).1
    ⊎ Blocks whole 100 request context "d" 0 rounds busy decision
decide_sound_example = decide_sound whole 100 request context "d" 0 rounds busy decision decides
