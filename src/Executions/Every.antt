-- ===== src/Executions/Every.antt =====
-- Properties of every execution that no call breaks.
use claw_tune.Base.{
  ℕ, ◌≡◌, ◌⊎◌, refl, ap, inl, inr, some, String, List, [], ◌∷◌, All, Option-cases, Bool-cases,
}
use claw_tune.Executions.{Execution, Registry, sweep, is_closed, close_runtime, Request}
use claw_tune.Executions.Calls.{find, register, register_new, new_execution}
use claw_tune.Executions.Reports.{start_record, started, exit_record, exited}
use claw_tune.Executions.Linked.{IsLinked, get-put-some}
use claw_tune.Executions.Claims.{register_again-same}
use claw_tune.Executions.Machine.{
  Call, close, register_request, claim_request, start_report, exit_report, complete, abort_call,
  set_scope, bind_root, look, step, run, AllFresh, step-IsLinked,
}
use claw_tune.Executions.Continued.{
  Continues, continues_refl, sweep-Came, claim-Came, report-Came, mark_completed-Came, abort-Came,
  update_scope-Came, bind_trusted_root-Came,
}

-- The call registers an execution of this identifier under this token.
abbrev pub Registers : {Stored : Type 0} → Call Stored → String → String → Type 0
Registers (register_request q swept now token) k t = (q.execution_id ≡ k) × (token ≡ t)
Registers _ k t = ⊥

module _ {Stored : Type 0} where
  register-Came :
      (d : Discrete Stored) (request : Request Stored) (swept now : ℕ) (token : String)
      (r : Registry Stored) (k : String) (e : Execution Stored)
      → IsLinked r
      → find k (register d request swept now token r).1 ≡ some e
      → ((f : Execution Stored) × (find k r ≡ some f) × Continues f e)
        ⊎ ((request.execution_id ≡ k) × (token ≡ e.token))
  unfolding register register_new
  register-Came d request swept now token r k e l h =
      let r' = sweep swept r in
      elim (Bool-cases (is_closed request.gateway_id request.runtime_id r)) [
        | inl closed ↦ inl (e, rw (closed, register) at h, continues_refl e)
        | inr open_now ↦ elim (Option-cases (find request.execution_id r')) [
          | inr (f, there) ↦ inl (
              (sweep-Came swept r l).before k e
                (rw (open_now, there, register, register_again-same d request f r') at h))
          | inl absent ↦
              let new = new_execution request token now r' in
              elim (get-put-some k request.execution_id new r'.by_execution_id
                (rw (open_now, absent, register, register_new) at h)) [
                  | inl (p, q) ↦ inr (p, ap (λ (x : Execution Stored). x.token) q)
                  | inr (_, old) ↦ inl ((sweep-Came swept r l).before k e old)
                ]
        ]
      ]

  module _ (d : Discrete Stored) where
    -- After any call, an execution continues one that was there, or the call registered it.
    step-before :
        (c : Call Stored) (r : Registry Stored) (k : String) (e : Execution Stored)
        → IsLinked r
        → find k (step d c r) ≡ some e
        → ((f : Execution Stored) × (find k r ≡ some f) × Continues f e) ⊎ Registers c k e.token
    unfolding step close_runtime started exited
    step-before (close g rt) r k e l h = inl (e, h, continues_refl e)
    step-before (register_request q swept now token) r k e l h =
        register-Came d q swept now token r k e l h
    step-before (claim_request q swept now token) r k e l h =
        inl ((claim-Came q swept now token r l).before k e h)
    step-before (start_report j q swept) r k e l h = inl (
        (report-Came j q.update_token swept (start_record j q) r
            (λ e. record { token = refl; claimed = λ h. h; root = λ pid h. h }) l).before
          k e h)
    step-before (exit_report j q swept now) r k e l h = inl (
        (report-Came j q.update_token swept (exit_record q now) r
            (λ e. record { token = refl; claimed = λ h. h; root = λ pid h. h }) l).before
          k e h)
    step-before (complete j now) r k e l h = inl ((mark_completed-Came j now r).before k e h)
    step-before (abort_call j reason now) r k e l h = inl ((abort-Came j reason now r).before k e h)
    step-before (set_scope j s p) r k e l h = inl ((update_scope-Came j s p r).before k e h)
    step-before (bind_root j pid) r k e l h = inl ((bind_trusted_root-Came j pid r).before k e h)
    step-before (look now) r k e l h = inl ((sweep-Came now r l).before k e h)

    module _ (Holds : String → Execution Stored → Type 0) where
      -- Whatever continues an execution has its property.
      abbrev pub IsKept : Type 0
      IsKept = (k : String) (f e : Execution Stored) → Continues f e → Holds k f → Holds k e

      -- What the call registers has the property.
      abbrev pub Gives : Call Stored → Type 0
      Gives c = (k : String) (e : Execution Stored) → Registers c k e.token → Holds k e

      abbrev pub Every : Registry Stored → Type 0
      Every r = (k : String) (e : Execution Stored) → find k r ≡ some e → Holds k e

      step-Every :
          (c : Call Stored) (r : Registry Stored)
          → IsKept
          → IsLinked r
          → Gives c
          → Every r
          → Every (step d c r)
      step-Every c r kept l gives all k e h = elim (step-before c r k e l h) [
        | inl (f, there, goes_on) ↦ kept k f e goes_on (all k f there)
        | inr new ↦ gives k e new
      ]

      -- A property that every execution has, that is kept, and that every registered execution has, is
      -- there after any calls.
      pub run-Every :
          (cs : List (Call Stored)) (r : Registry Stored)
          → IsKept
          → IsLinked r
          → AllFresh d cs r
          → All Gives cs
          → Every r
          → Every (run d cs r)
      unfolding run
      run-Every [] r kept l fresh gives all = all
      run-Every (c ∷ cs) r kept l fresh gives all =
          run-Every cs (step d c r) kept (step-IsLinked d c r fresh.0 l) fresh.1 gives.1
            (step-Every c r kept l gives.0 all)
