-- ===== src/Examples/Registering.antt =====
-- An execution that is registered, claimed and reported.
use native.Mathlib.Decide.{ℕ_discrete}
use claw_tune.Base.{
  ◌↔◌, ℕ, pos, ◌≡◌, ◌≢◌, ◌⊎◌, refl, inl, false, none, some, List, [], ◌∷◌, arith, string_discrete,
  option_discrete,
}
use claw_tune.Dict.{keep, get, put, pop, matching, IsUnique}
use claw_tune.Identity.{
  Subject, missing, text, same, string_attr, truthy, owner_key, owners_compatible,
}
use claw_tune.Executions.{
  Request, managed_wrapper, Execution, Registry, new_registry, sweep, drop, drop_all,
}
use claw_tune.Executions.Calls.{
  http, ok, raised, refuse, Registered, ClaimRequest, Claimed, StartedRequest, ExitedRequest, find,
  new_execution, claim_record, register, register_new, register_again, claim, claim_found,
  claim_new,
}
use claw_tune.Executions.Reports.{
  report, start_record, started, update_failure, bind_trusted_root, abort, mark_completed,
  update_scope, exited,
}
use claw_tune.Executions.Linked.{IsLinked}
use claw_tune.Executions.Machine.{
  Call, register_request, claim_request, start_report, exit_report, complete, step, run, AllFresh,
  run-tokens-IsLinked,
}
use claw_tune.Executions.Once.{IsClaim, claim_sound}
use claw_tune.Executions.Again.{IsRegistered, register_sound, register_twice}
use claw_tune.Executions.Updates.{IsReport, report_sound, report_refused}
use claw_tune.Executions.Lasting.{claim_once, bind_trusted_root-fixed}
use claw_tune.Executions.Queries.{unique_tool_call_execution_id}
use claw_tune.Executions.Adopted.{IsOnlyMatch, unique_tool_call_execution_id-IsOnlyMatch}
use claw_tune.Executions.Sweep.{sweep_keeps_running}

abbrev pub request : Request ℕ
request = record {
  execution_id = "x";
  gateway_id = some "g";
  runtime_id = some "r";
  repo = none;
  agent_id = none;
  session_id = none;
  tool_call_id = some "t";
  lease_id = none;
  run_id = none;
  session_key_hash = none;
  command_digest = "digest";
  command = "make";
  workdir = none;
  host = "local";
  placement = none;
  profiling = none;
  backend = managed_wrapper;
}

abbrev pub fresh_registry : Registry ℕ
fresh_registry = new_registry 60 60 60

abbrev pub calls : List (Call ℕ)
calls = register_request request 0 0 "tok" ∷ []

program : Unit {0}
unfolding get put pop matching string_discrete option_discrete same sweep drop drop_all register
    register_new register_again claim claim_found claim_new report started update_failure
    bind_trusted_root abort mark_completed update_scope exited step run
program = tt

-- The registry with the execution waiting for its claim.
abbrev pub waiting : Registry ℕ
waiting = record fresh_registry {
  by_execution_id = ("x", new_execution request "tok" 0 fresh_registry) ∷ [];
  by_token = ("tok", "x") ∷ [];
}

waiting-run : run ℕ_discrete calls (new_registry 60 60 60) ≡ waiting
unfolding program
waiting-run = refl

all_fresh : AllFresh ℕ_discrete calls (new_registry 60 60 60)
unfolding program
all_fresh = (λ k e h. absurd (none≢some h), tt)
  where
    none≢some : {A : Type 0} {a : A} → none ≡ some a → ⊥
    none≢some e = cc

run-tokens-IsLinked_example : IsLinked (run ℕ_discrete calls (new_registry 60 60 60))
run-tokens-IsLinked_example = run-tokens-IsLinked ℕ_discrete 60 60 60 calls all_fresh

pub waiting-IsLinked : IsLinked waiting
waiting-IsLinked = rw (← waiting-run) (run-tokens-IsLinked ℕ_discrete 60 60 60 calls all_fresh)

abbrev claim_it : ClaimRequest
claim_it = record { execution_id = "x"; token = "tok"; launcher_pid = some 7 }

abbrev answer : Claimed ℕ
answer = record {
  execution_id = "x";
  update_token = "up";
  command = "make";
  command_digest = "digest";
  workdir = none;
  host = "local";
  placement = none;
  profiling = none;
}

claims : (claim claim_it 5 5 "up" waiting).0 ≡ ok answer
unfolding program
claims = refl

claim_sound_example :
    IsClaim claim_it 5 "up" answer (sweep 5 waiting) (claim claim_it 5 5 "up" waiting).1
claim_sound_example = claim_sound claim_it 5 5 "up" waiting answer waiting-IsLinked claims

abbrev registered : Registered
registered = record { execution_id = "x"; one_time_token = "tok"; expires_at = 60000000 }

registers : (register ℕ_discrete request 0 0 "tok" fresh_registry).0 ≡ ok registered
unfolding program
registers = refl

kept :
    find "x" (sweep 5 (register ℕ_discrete request 0 0 "tok" fresh_registry).1)
    ≡ find "x" (register ℕ_discrete request 0 0 "tok" fresh_registry).1
unfolding program
kept = refl

register_sound_example :
    IsRegistered request 0 "tok" registered
      (sweep 0 fresh_registry)
      (register ℕ_discrete request 0 0 "tok" fresh_registry).1
register_sound_example =
    register_sound ℕ_discrete request 0 0 "tok" fresh_registry registered registers

register_twice_example :
    (register ℕ_discrete request 5 5 "new"
      (register ℕ_discrete request 0 0 "tok" fresh_registry).1).0
    ≡ ok registered
register_twice_example =
    register_twice ℕ_discrete request 0 0 5 5 "tok" "new" fresh_registry registered registers kept

-- The registry with the execution claimed.
abbrev running_record : Execution ℕ
running_record = claim_record (some 7) "up" (new_execution request "tok" 0 fresh_registry)

abbrev running : Registry ℕ
running = record fresh_registry { by_execution_id = ("x", running_record) ∷ [] }

abbrev start : StartedRequest
start = record {
  update_token = "up";
  launcher_pid = 7;
  child_pid = 8;
  process_starttime_ticks = none;
  cgroup_path = none;
  pid_namespace_inode = none;
  container_id = none;
}

abbrev exit : ExitedRequest ℕ
exit = record {
  update_token = "up";
  exit_code = some (pos 0);
  signal = none;
  confirmed_timeout = false;
  timeout_duration_lower_bound_ms = none;
}

-- The execution completes before the retry.
abbrev between : List (Call ℕ)
between = start_report "x" start 6 ∷ exit_report "x" exit 7 8 ∷ complete "x" 8 ∷ []

claim_once_example :
    (claim claim_it 9 9 "other" (run ℕ_discrete between (claim claim_it 5 5 "up" waiting).1)).0
    ≢ ok (record answer { update_token = "other" })
claim_once_example =
    claim_once ℕ_discrete claim_it claim_it 5 5 9 9 "up" "other" between waiting answer
      (record answer { update_token = "other" }) waiting-IsLinked claims (tt, (tt, (tt, tt)))
      (inl (refl, ((λ id h. h), ((λ id h. h), ((λ id h. h), tt)))))

reports : (report "x" "up" 9 (start_record "x" start) running).0 ≡ ok tt
unfolding program
reports = refl

report_sound_example :
    IsReport "x" "up"
      (start_record "x" start)
      (sweep 9 running)
      (report "x" "up" 9 (start_record "x" start) running).1
report_sound_example = report_sound "x" "up" 9 (start_record "x" start) running reports

unauthorised :
    (report "x" "bad" 9 (start_record "x" start) running).0
    ≡ raised (http 403 "invalid_execution_update_token")
unfolding program
unauthorised = refl

report_refused_example : (report "x" "bad" 9 (start_record "x" start) running).1 ≡ sweep 9 running
report_refused_example =
    report_refused "x" "bad" 9 (start_record "x" start) running
      (http 403 "invalid_execution_update_token") unauthorised

binds : (bind_trusted_root "x" (pos 42) running).0 ≡ ok tt
unfolding program
binds = refl

different : pos 42 ≢ pos 43
different e = ground (arith, e)

found : find "x" running ≡ some running_record
unfolding program
found = refl

running-IsUnique : IsUnique string_discrete running.by_execution_id
unfolding program
running-IsUnique = (refl, tt)

sweep_keeps_running_example : find "x" (sweep 1000000000 running) ≡ some running_record
sweep_keeps_running_example =
    sweep_keeps_running 1000000000 "x" running_record running running-IsUnique found refl refl

running-run :
    run ℕ_discrete
      (register_request request 0 0 "tok" ∷ claim_request claim_it 5 5 "up" ∷ [])
      (new_registry 60 60 60)
    ≡ running
unfolding program
running-run = refl

both_fresh :
    AllFresh ℕ_discrete
      (register_request request 0 0 "tok" ∷ claim_request claim_it 5 5 "up" ∷ [])
      (new_registry 60 60 60)
both_fresh = (all_fresh.0, (tt, tt))

running-IsLinked : IsLinked running
running-IsLinked = rw (← running-run) (
    run-tokens-IsLinked ℕ_discrete 60 60 60
      (register_request request 0 0 "tok" ∷ claim_request claim_it 5 5 "up" ∷ []) both_fresh)

bind_trusted_root-fixed_example :
    (bind_trusted_root "x"
        (pos 43)
        (run ℕ_discrete between (bind_trusted_root "x" (pos 42) running).1)
      ≡ refuse 409 "trusted_execution_root_changed"
          (run ℕ_discrete between (bind_trusted_root "x" (pos 42) running).1))
    ⊎ ((find "x" (run ℕ_discrete between (bind_trusted_root "x" (pos 42) running).1) ≡ none)
        × (bind_trusted_root "x"
              (pos 43)
              (run ℕ_discrete between (bind_trusted_root "x" (pos 42) running).1)
            ≡ refuse 404 "execution_not_found"
                (run ℕ_discrete between (bind_trusted_root "x" (pos 42) running).1)))
bind_trusted_root-fixed_example =
    bind_trusted_root-fixed ℕ_discrete "x" (pos 42) (pos 43) between running running-IsLinked binds
      (tt, (tt, (tt, tt))) ((λ id h. h), ((λ id h. h), ((λ id h. h), tt))) different refl

abbrev completion : Subject
completion = record {
  gateway_id = text "g";
  runtime_id = text "r";
  agent_id = missing;
  session_id = missing;
  session_key = missing;
  session_key_hash = missing;
  run_id = missing;
  event_id = missing;
  tool_call_id = text "t";
}

unique_tool_call_execution_id-IsOnlyMatch_example :
    ((unique_tool_call_execution_id completion 9 running).0 ≡ some "x")
    ↔ IsOnlyMatch completion (sweep 9 running) "x"
unique_tool_call_execution_id-IsOnlyMatch_example =
    unique_tool_call_execution_id-IsOnlyMatch completion 9 running "x" running-IsLinked

-- The completion adopts the execution that runs.
adopts : (unique_tool_call_execution_id completion 9 running).0 ≡ some "x"
unfolding program unique_tool_call_execution_id keep string_attr truthy owner_key owners_compatible
adopts = refl
