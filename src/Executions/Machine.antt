-- ===== src/Executions/Machine.antt =====
-- The registry as a machine: every method is a step.
use claw_tune.Base.{ℕ, ℤ, ◌≡◌, Option, none, some, String, List, [], ◌∷◌}
use claw_tune.Dict.{get}
use claw_tune.Executions.{Request, Registry, ResourceScope, sweep, close_runtime, new_registry}
use claw_tune.Executions.Calls.{ClaimRequest, StartedRequest, ExitedRequest, register, claim}
use claw_tune.Executions.Reports.{
  mark_completed, abort, started, exited, update_scope, bind_trusted_root,
}
use claw_tune.Executions.Linked.{IsLinked, sweep-IsLinked}
use claw_tune.Executions.Claims.{IsFresh, register-IsLinked, claim-IsLinked}
use claw_tune.Executions.Updates.{
  started-IsLinked, exited-IsLinked, mark_completed-IsLinked, abort-IsLinked, update_scope-IsLinked,
  bind_trusted_root-IsLinked,
}

-- A call of a method; `look` is any of the queries, which only sweep.
pub data Call (Stored : Type 0) : Type 0 where
  close : String → String → Call Stored
  register_request : Request Stored → (swept now : ℕ) → String → Call Stored
  claim_request : ClaimRequest → (swept now : ℕ) → String → Call Stored
  start_report : String → StartedRequest → ℕ → Call Stored
  exit_report : String → ExitedRequest Stored → (swept now : ℕ) → Call Stored
  complete : String → ℕ → Call Stored
  abort_call : String → String → ℕ → Call Stored
  set_scope : String → ResourceScope → Option String → Call Stored
  bind_root : String → ℤ → Call Stored
  look : ℕ → Call Stored

module _ {Stored : Type 0} (d : Discrete Stored) where
  unfoldable pub step : Call Stored → Registry Stored → Registry Stored
  step (close g rt) r = close_runtime g rt r
  step (register_request q swept now token) r = (register d q swept now token r).1
  step (claim_request q swept now token) r = (claim q swept now token r).1
  step (start_report k q swept) r = (started k q swept r).1
  step (exit_report k q swept now) r = (exited k q swept now r).1
  step (complete k now) r = mark_completed k now r
  step (abort_call k reason now) r = (abort k reason now r).1
  step (set_scope k s p) r = (update_scope k s p r).1
  step (bind_root k pid) r = (bind_trusted_root k pid r).1
  step (look now) r = sweep now r

  unfoldable pub run : List (Call Stored) → Registry Stored → Registry Stored
  run [] r = r
  run (c ∷ cs) r = run cs (step c r)

  -- New tokens are fresh when they are drawn.
  abbrev pub DrawsFresh : Call Stored → Registry Stored → Type 0
  DrawsFresh (register_request q swept now token) r = IsFresh token r
  DrawsFresh _ r = Unit

  abbrev pub AllFresh : List (Call Stored) → Registry Stored → Type 0
  AllFresh [] r = Unit
  AllFresh (c ∷ cs) r = DrawsFresh c r × AllFresh cs (step c r)

  close_runtime-IsLinked :
      (g rt : String) (r : Registry Stored) → IsLinked r → IsLinked (close_runtime g rt r)
  unfolding close_runtime
  close_runtime-IsLinked g rt r l = record {
    unique = l.unique;
    unique_tokens = l.unique_tokens;
    keyed = l.keyed;
    issued = l.issued;
    waiting = l.waiting;
    apart = l.apart;
  }

  pub step-IsLinked :
      (c : Call Stored) (r : Registry Stored) → DrawsFresh c r → IsLinked r → IsLinked (step c r)
  unfolding step
  step-IsLinked (close g rt) r f l = close_runtime-IsLinked g rt r l
  step-IsLinked (register_request q swept now token) r f l =
      register-IsLinked d q swept now token r l f
  step-IsLinked (claim_request q swept now token) r f l = claim-IsLinked q swept now token r l
  step-IsLinked (start_report k q swept) r f l = started-IsLinked k q swept r l
  step-IsLinked (exit_report k q swept now) r f l = exited-IsLinked k q swept now r l
  step-IsLinked (complete k now) r f l = mark_completed-IsLinked k now r l
  step-IsLinked (abort_call k reason now) r f l = abort-IsLinked k reason now r l
  step-IsLinked (set_scope k s p) r f l = update_scope-IsLinked k s p r l
  step-IsLinked (bind_root k pid) r f l = bind_trusted_root-IsLinked k pid r l
  step-IsLinked (look now) r f l = sweep-IsLinked now r l

  pub run-IsLinked :
      (cs : List (Call Stored)) (r : Registry Stored)
      → AllFresh cs r
      → IsLinked r
      → IsLinked (run cs r)
  unfolding run
  run-IsLinked [] r f l = l
  run-IsLinked (c ∷ cs) r f l = run-IsLinked cs (step c r) f.1 (step-IsLinked c r f.0 l)

  none≢some {ℓ} : {A : Type ℓ} {a : A} → none ≡ some a → ⊥
  none≢some e = cc

  new_registry-IsLinked :
      (ttl completed markers : ℕ) → IsLinked (new_registry {Stored = Stored} ttl completed markers)
  unfolding get
  new_registry-IsLinked ttl completed markers = record {
    unique = tt;
    unique_tokens = tt;
    keyed = λ k e h. absurd (none≢some h);
    issued = λ t k h. absurd (none≢some h);
    waiting = λ k e h. absurd (none≢some h);
    apart = λ j k e f h. absurd (none≢some h);
  }

  -- After any sequence of calls on a new registry whose new tokens are fresh, the tokens that can be
  -- claimed are exactly those of the executions that are there and not claimed, each leads to its own
  -- execution, executions are stored under their own identifiers, and no two share a token.
  pub run-tokens-IsLinked :
      (ttl completed markers : ℕ) (cs : List (Call Stored))
      → AllFresh cs (new_registry ttl completed markers)
      → IsLinked (run cs (new_registry ttl completed markers))
  run-tokens-IsLinked ttl completed markers cs fresh =
      run-IsLinked cs _ fresh (new_registry-IsLinked ttl completed markers)
