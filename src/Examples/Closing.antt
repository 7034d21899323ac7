-- ===== src/Examples/Closing.antt =====
-- A runtime that is closed while an execution waits for its claim.
use native.Mathlib.Decide.{ℕ_discrete}
use claw_tune.Base.{ℕ, ◌≡◌, refl, inr, some, none, List, [], ◌∷◌, string_discrete}
use claw_tune.Dict.{get, matching}
use claw_tune.Executions.{drop_all, sweep, close_runtime}
use claw_tune.Executions.Calls.{
  Failure, raised, refuse, ClaimRequest, find, new_execution, register, claim,
}
use claw_tune.Executions.Reports.{report}
use claw_tune.Executions.Machine.{Call, look, step, run}
use claw_tune.Executions.Finalized.{IsOf, register_after_close, updates_after_close}
use claw_tune.Examples.Registering.{request, fresh_registry, waiting}

abbrev later : List (Call ℕ)
later = look 3 ∷ []

of : IsOf "g" "r" request
of = (refl, inr refl)

there :
    find "x" (sweep 5 (run ℕ_discrete later (close_runtime "g" "r" waiting)))
    ≡ some (new_execution request "tok" 0 fresh_registry)
unfolding get matching string_discrete sweep drop_all step run close_runtime
there = refl

abbrev claim_it : ClaimRequest
claim_it = record { execution_id = "x"; token = "tok"; launcher_pid = none }

register_after_close_example :
    register ℕ_discrete request 5 5 "up" (run ℕ_discrete later (close_runtime "g" "r" waiting))
    ≡ refuse 409 "runtime_finalized" (run ℕ_discrete later (close_runtime "g" "r" waiting))
register_after_close_example =
    register_after_close ℕ_discrete "g" "r" later waiting request 5 5 "up" of

updates_after_close_example :
    (claim claim_it 5 5 "up" (run ℕ_discrete later (close_runtime "g" "r" waiting))
      ≡ refuse 409 "runtime_finalized"
          (sweep 5 (run ℕ_discrete later (close_runtime "g" "r" waiting))))
    × ((f : Failure) × (report "x" "up" 5
            (λ e. e)
            (run ℕ_discrete later (close_runtime "g" "r" waiting))
          ≡ (raised f, sweep 5 (run ℕ_discrete later (close_runtime "g" "r" waiting)))))
updates_after_close_example =
    updates_after_close ℕ_discrete "g" "r" later waiting claim_it 5 5 "up" (λ e. e)
      (new_execution request "tok" 0 fresh_registry) of there
