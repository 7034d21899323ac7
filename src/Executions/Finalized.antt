-- ===== src/Executions/Finalized.antt =====
-- Calls under a runtime that was closed.
use claw_tune.Base.{
  ℕ, ◌≡◌, ◌⊎◌, inl, inr, true, Option, none, some, String, List, [], ◌∷◌, arith, Option-cases,
  Bool-cases,
}
use claw_tune.Identity.Owners.{same_iff}
use claw_tune.Executions.{Request, Execution, Registry, sweep, is_closed, close_runtime}
use claw_tune.Executions.Calls.{
  Failure, raised, ClaimRequest, find, refuse, register, register_new, claim, claim_found,
  claim_new,
}
use claw_tune.Executions.Reports.{
  mark_completed, abort, report, update_failure, started, exited, update_scope, bind_trusted_root,
}
use claw_tune.Executions.Sweep.{sweep-closed}
use claw_tune.Executions.Claims.{register_again-same}
use claw_tune.Executions.Machine.{
  Call, close, register_request, claim_request, start_report, exit_report, complete, abort_call,
  set_scope, bind_root, look, step, run,
}

module _ {Stored : Type 0} where
  -- The execution names the runtime, and its gateway or none.
  abbrev pub IsOf : String → String → Request Stored → Type 0
  IsOf g rt q = (q.runtime_id ≡ some rt) × ((q.gateway_id ≡ none) ⊎ (q.gateway_id ≡ some g))

  register-closed :
      (d : Discrete Stored) (q : Request Stored) (swept now : ℕ) (token : String)
      (r : Registry Stored)
      → (register d q swept now token r).1.closed_runtimes ≡ r.closed_runtimes
  unfolding register register_new
  register-closed d q swept now token r =
      let r' = sweep swept r in
      elim (Bool-cases (is_closed q.gateway_id q.runtime_id r)) [
        | inl shut ↦ rw shut
        | inr open_now ↦ elim (Option-cases (find q.execution_id r')) [
          | inl absent ↦ rw (open_now, absent, register) (sweep-closed swept r)
          | inr (e, there) ↦
              rw (open_now, there, register, register_again-same d q e r') (sweep-closed swept r)
        ]
      ]

  claim-closed :
      (q : ClaimRequest) (swept now : ℕ) (token : String) (r : Registry Stored)
      → (claim q swept now token r).1.closed_runtimes ≡ r.closed_runtimes
  unfolding claim claim_found claim_new
  claim-closed q swept now token r = ground (arith, sweep-closed swept r)

  report-closed :
      (k token : String) (swept : ℕ) (change : Execution Stored → Execution Stored)
      (r : Registry Stored)
      → (report k token swept change r).1.closed_runtimes ≡ r.closed_runtimes
  unfolding report
  report-closed k token swept change r = ground (arith, sweep-closed swept r)

  mark_completed-closed :
      (k : String) (now : ℕ) (r : Registry Stored)
      → (mark_completed k now r).closed_runtimes ≡ r.closed_runtimes
  unfolding mark_completed
  mark_completed-closed k now r = ground arith

  abort-closed :
      (k reason : String) (now : ℕ) (r : Registry Stored)
      → (abort k reason now r).1.closed_runtimes ≡ r.closed_runtimes
  unfolding abort
  abort-closed k reason now r =
      ground (arith, λ (s : Registry Stored). mark_completed-closed k now s)

  module _ (d : Discrete Stored) (g rt : Option String) where
    step-closed :
        (c : Call Stored) (r : Registry Stored)
        → is_closed g rt r ≡ true
        → is_closed g rt (step d c r) ≡ true
    unfolding step close_runtime started exited update_scope bind_trusted_root
    step-closed (close g' rt') r h = ground (arith, h)
    step-closed (register_request q swept now token) r h =
        rw (register-closed d q swept now token r) h
    step-closed (claim_request q swept now token) r h = rw (claim-closed q swept now token r) h
    step-closed (start_report k q swept) r h = rw (report-closed k _ swept _ r) h
    step-closed (exit_report k q swept now) r h = rw (report-closed k _ swept _ r) h
    step-closed (complete k now) r h = rw (mark_completed-closed k now r) h
    step-closed (abort_call k reason now) r h = rw (abort-closed k reason now r) h
    step-closed (set_scope k s p) r h = ground (arith, h)
    step-closed (bind_root k pid) r h = ground (arith, h)
    step-closed (look now) r h = rw (sweep-closed now r) h

    run-closed :
        (cs : List (Call Stored)) (r : Registry Stored)
        → is_closed g rt r ≡ true
        → is_closed g rt (run d cs r) ≡ true
    unfolding run
    run-closed [] r h = h
    run-closed (c ∷ cs) r h = run-closed cs (step d c r) (step-closed c r h)

  module _ (d : Discrete Stored) (g rt : String) (cs : List (Call Stored))
      (r : Registry Stored) where
    -- A request of the runtime finds it closed, whatever was called since.
    shut :
        (q : Request Stored)
        → IsOf g rt q
        → is_closed q.gateway_id q.runtime_id (run d cs (close_runtime g rt r)) ≡ true
    unfolding close_runtime
    shut q (of_runtime, of_gateway) =
        run-closed d q.gateway_id q.runtime_id cs (close_runtime g rt r) (elim of_gateway [
          | inl any ↦ ground (arith, of_runtime, any, same_iff (some rt) q.runtime_id)
          | inr own ↦ ground (
            arith,
            of_runtime,
            own,
            same_iff (some rt) q.runtime_id,
            same_iff (some g) q.gateway_id,
          )
        ])

    shut_swept :
        (now : ℕ) (q : Request Stored)
        → IsOf g rt q
        → is_closed q.gateway_id q.runtime_id (sweep now (run d cs (close_runtime g rt r))) ≡ true
    shut_swept now q of = rw (sweep-closed now (run d cs (close_runtime g rt r))) (shut q of)

    -- After `close_runtime`, whatever is called since, a registration that names the runtime, and its
    -- gateway or none, is refused with 409 and leaves the registry as it is.
    pub register_after_close :
        (q : Request Stored) (swept now : ℕ) (token : String)
        → IsOf g rt q
        → register d q swept now token (run d cs (close_runtime g rt r))
          ≡ refuse 409 "runtime_finalized" (run d cs (close_runtime g rt r))
    unfolding register
    register_after_close q swept now token of = ground (arith, shut q of)

    -- After `close_runtime`, whatever is called since, a claim of an execution that the sweep leaves
    -- and whose request names the runtime, and its gateway or none, is refused with 409, and nothing but
    -- the sweep is done.
    claim_after_close :
        (q : ClaimRequest) (swept now : ℕ) (token : String) (e : Execution Stored)
        → IsOf g rt e.request
        → find q.execution_id (sweep swept (run d cs (close_runtime g rt r))) ≡ some e
        → claim q swept now token (run d cs (close_runtime g rt r))
          ≡ refuse 409 "runtime_finalized" (sweep swept (run d cs (close_runtime g rt r)))
    unfolding claim claim_found
    claim_after_close q swept now token e of there =
        rw (there, claim, claim_found, shut_swept swept e.request of)

    -- After `close_runtime`, whatever is called since, a report on an execution that the sweep leaves
    -- and whose request names the runtime, and its gateway or none, is refused, and nothing but the
    -- sweep is done.
    report_after_close :
        (k token : String) (swept : ℕ) (change : Execution Stored → Execution Stored)
        (e : Execution Stored)
        → IsOf g rt e.request
        → find k (sweep swept (run d cs (close_runtime g rt r))) ≡ some e
        → (f : Failure) × (report k token swept change (run d cs (close_runtime g rt r))
            ≡ (raised f, sweep swept (run d cs (close_runtime g rt r))))
    unfolding report update_failure
    report_after_close k token swept change e of there =
        let s = sweep swept (run d cs (close_runtime g rt r)) in
        elim (Option-cases (update_failure token e s)) [
          | inr (f, bad) ↦ (f, rw (there, report, bad))
          | inl good ↦ absurd (ground (arith, good, shut_swept swept e.request of))
        ]

    -- After `close_runtime`, whatever is called since, for an execution that the sweep leaves and whose
    -- request names the runtime, and its gateway or none: a claim is refused with 409 and a report is
    -- refused, and nothing but the sweep is done.
    pub updates_after_close :
        (q : ClaimRequest) (swept now : ℕ) (token : String)
        (change : Execution Stored → Execution Stored) (e : Execution Stored)
        → IsOf g rt e.request
        → find q.execution_id (sweep swept (run d cs (close_runtime g rt r))) ≡ some e
        → (claim q swept now token (run d cs (close_runtime g rt r))
            ≡ refuse 409 "runtime_finalized" (sweep swept (run d cs (close_runtime g rt r))))
          × ((f : Failure) × (report q.execution_id token swept change
                  (run d cs (close_runtime g rt r))
                ≡ (raised f, sweep swept (run d cs (close_runtime g rt r)))))
    updates_after_close q swept now token change e of there = (
      claim_after_close q swept now token e of there,
      report_after_close q.execution_id token swept change e of there,
    )
