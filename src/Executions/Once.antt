-- ===== src/Executions/Once.antt =====
-- What a claim finds and what it does.
use mathlib.Core.Logic.{ite}
use claw_tune.Base.{
  ℕ, ◌<◌, ◌≡◌, sym, ◌∙◌, inl, inr, false, none, some, String, arith, string_discrete, Option-cases,
}
use claw_tune.Dict.{get}
use claw_tune.Dict.Laws.{get-put, get-put_self, get-pop_self}
use claw_tune.Executions.{Execution, Registry, sweep, is_closed}
use claw_tune.Executions.Calls.{
  ok, ClaimRequest, Claimed, find, claim_record, claim_new, claim_found, claim,
}
use claw_tune.Executions.Linked.{IsLinked, sweep-IsLinked}
use claw_tune.Executions.Sweep.{get-sweep}
use claw_tune.Executions.Claims.{only-some}

module _ {Stored : Type 0} where
  -- What a successful claim says about the registry before it, after its sweep, and after it.
  pub record IsClaim (request : ClaimRequest) (now : ℕ) (update_token : String)
      (answer : Claimed Stored) (r s : Registry Stored) : Type 0 where
    pub spec : Execution Stored
    pub there : find request.execution_id r ≡ some spec
    pub free : spec.claimed ≡ false
    pub paid : spec.token ≡ request.token
    pub in_time : now < spec.expires_at
    pub runtime_open : is_closed spec.request.gateway_id spec.request.runtime_id r ≡ false
    pub command : answer.command ≡ spec.request.command
    pub key : answer.update_token ≡ update_token
    pub taken :
        find request.execution_id s ≡ some (claim_record request.launcher_pid update_token spec)
    pub spent : get string_discrete request.token s.by_token ≡ none
    pub after :
        (j : String)
        → find j s
          ≡ ite
              (string_discrete request.execution_id j)
              (some (claim_record request.launcher_pid update_token spec))
              (find j r)

  claim_found-IsClaim :
      (request : ClaimRequest) (now : ℕ) (update_token : String) (e : Execution Stored)
      (r : Registry Stored) {answer : Claimed Stored}
      → IsLinked r
      → find request.execution_id r ≡ some e
      → (claim_found request now update_token e r).0 ≡ ok answer
      → IsClaim request now update_token answer r (claim_found request now update_token e r).1
  unfolding claim_found claim_new
  claim_found-IsClaim request now update_token e r l found h = record {
    spec = e;
    there = found;
    free = ground (arith, h);
    paid = ground (arith, h);
    in_time = ground (arith, h);
    runtime_open = ground (arith, h);
    command = ground (arith, h);
    key = ground (arith, h);
    taken = ground (
      arith,
      h,
      get-put_self string_discrete request.execution_id
          (claim_record request.launcher_pid update_token e) r.by_execution_id,
    );
    spent = ground (arith, h, get-pop_self string_discrete e.token r.by_token l.unique_tokens);
    after = λ j. ground (
      arith,
      h,
      get-put string_discrete j request.execution_id
          (claim_record request.launcher_pid update_token e) r.by_execution_id,
    );
  }

  -- On a registry whose tables agree, a claim that succeeds found an execution that was not claimed,
  -- and came with its token before its deadline while its runtime was open; it returns the command of
  -- the execution and the new update token, marks the execution as claimed, takes the token out, and
  -- leaves every other execution as its sweep does.
  pub claim_sound :
      (request : ClaimRequest) (swept now : ℕ) (update_token : String) (r : Registry Stored)
      (answer : Claimed Stored)
      → IsLinked r
      → (claim request swept now update_token r).0 ≡ ok answer
      → IsClaim request now update_token answer
          (sweep swept r)
          (claim request swept now update_token r).1
  unfolding claim
  claim_sound request swept now update_token r answer l h =
      let r' = sweep swept r in
      let l' = sweep-IsLinked swept r l in
      elim (Option-cases (find request.execution_id r')) [
        | inl absent ↦ absurd (ground (arith, absent, h))
        | inr (e, there) ↦
            rw (there, claim)
              (claim_found-IsClaim request now update_token e r' l' there (rw (there, claim) at h))
      ]

  pub unswept :
      (now : ℕ) (k : String) (e : Execution Stored) (r : Registry Stored)
      → IsLinked r
      → find k (sweep now r) ≡ some e
      → find k r ≡ some e
  unswept now k e r l h = only-some _ (find k r) (sym (get-sweep now k r l.unique) ∙ h)
