-- ===== src/Executions/Calls.antt =====
-- The methods of `ExecutionRegistry` that change it. A method returns its answer, or the exception
-- that it raises, beside the registry: what happens before a `raise` stays done.
use claw_tune.Base.{
  ℕ, ◌+◌, ℤ, Bool, true, false, not, Option, none, some, String, is_yes, if◌then◌else◌, leb,
  string_discrete,
}
use claw_tune.Dict.{get, put, pop}
use claw_tune.Identity.{owners_compatible}
use claw_tune.Executions.{
  Request, Execution, Registry, seconds, sweep, is_closed, subject_of, request_discrete,
}

-- `HTTPException(status_code, detail)`, and the `KeyError` of a missing key.
pub data Failure : Type 0 where
  http : ℕ → String → Failure
  key_error : Failure

pub data Reply (A : Type 0) : Type 0 where
  ok : A → Reply A
  raised : Failure → Reply A

-- `ExecutionRegistrationResponse`; the deadline before it is printed as text.
pub record Registered : Type 0 where
  pub execution_id : String
  pub one_time_token : String
  pub expires_at : ℕ

-- `ExecutionClaimRequest`
pub record ClaimRequest : Type 0 where
  pub execution_id : String
  pub token : String
  pub launcher_pid : Option ℕ

-- `ExecutionClaimResponse`
pub record Claimed (Stored : Type 0) : Type 0 where
  pub execution_id : String
  pub update_token : String
  pub command : String
  pub command_digest : String
  pub workdir : Option String
  pub host : String
  pub placement : Option Stored
  pub profiling : Option Stored

-- `ExecutionStartedRequest`, the fields that the registry reads.
pub record StartedRequest : Type 0 where
  pub update_token : String
  pub launcher_pid : ℕ
  pub child_pid : ℕ
  pub process_starttime_ticks : Option ℕ
  pub cgroup_path : Option String
  pub pid_namespace_inode : Option ℕ
  pub container_id : Option String

-- `ExecutionExitedRequest`
pub record ExitedRequest (Stored : Type 0) : Type 0 where
  pub update_token : String
  pub exit_code : Option ℤ
  pub signal : Option ℕ
  pub confirmed_timeout : Bool
  pub timeout_duration_lower_bound_ms : Option Stored

-- `text` in a Boolean context.
abbrev pub is_truthy : Option String → Bool
is_truthy none = false
is_truthy (some s) = not (is_yes (string_discrete s ""))

module _ {Stored : Type 0} where
  abbrev pub refuse : {A : Type 0} → ℕ → String → Registry Stored → Reply A × Registry Stored
  refuse status detail r = (raised (http status detail), r)

  abbrev pub find : String → Registry Stored → Option (Execution Stored)
  find execution_id r = get string_discrete execution_id r.by_execution_id

  abbrev pub store : String → Execution Stored → Registry Stored → Registry Stored
  store execution_id e r = record r {
    by_execution_id = put string_discrete execution_id e r.by_execution_id;
  }

  -- The record that `register` makes.
  abbrev pub new_execution : Request Stored → String → ℕ → Registry Stored → Execution Stored
  new_execution request token now r = record {
    request = request;
    token = token;
    expires_at = now + seconds r.token_ttl_s;
    update_token = none;
    scope = none;
    claimed = false;
    launcher_pid = none;
    exit_code = none;
    signal = none;
    exited = false;
    owned_cgroup_path = none;
    trusted_root_pid = none;
    completed_at = none;
    created_at = some now;
    aborted_reason = none;
    confirmed_timeout = false;
    timeout_duration_lower_bound_ms = none;
  }

  -- The first branch of `register`: an execution of that identifier is there.
  unfoldable pub register_again :
      Discrete Stored
      → Request Stored
      → Execution Stored
      → Registry Stored
      → Reply Registered × Registry Stored
  register_again d request previous r =
      if not (is_yes (request_discrete d previous.request request))
      then refuse 409
          (if owners_compatible (subject_of previous.request) (subject_of request)
            then "execution_id_payload_mismatch"
            else "execution_id_owned_by_another_runtime")
          r
      else if previous.claimed
      then refuse 409 "execution_already_claimed" r
      else (
        ok (record {
          execution_id = request.execution_id;
          one_time_token = previous.token;
          expires_at = previous.expires_at;
        }),
        r,
      )

  unfoldable pub register_new :
      Request Stored → String → ℕ → Registry Stored → Reply Registered × Registry Stored
  register_new request token now r =
      let e = new_execution request token now r in
      (
        ok (record {
          execution_id = request.execution_id;
          one_time_token = token;
          expires_at = e.expires_at;
        }),
        record r {
          by_execution_id = put string_discrete request.execution_id e r.by_execution_id;
          by_token = put string_discrete token request.execution_id r.by_token;
        },
      )

  -- `register`; `swept` and `now` are the two readings, `token` is `secrets.token_urlsafe(32)`.
  unfoldable pub register :
      Discrete Stored
      → Request Stored
      → (swept now : ℕ) → (token : String) → Registry Stored
      → Reply Registered × Registry Stored
  register d request swept now token r =
      if is_closed request.gateway_id request.runtime_id r
      then refuse 409 "runtime_finalized" r
      else let r' = sweep swept r in
        elim (find request.execution_id r') [
          | some previous ↦ register_again d request previous r'
          | none ↦ register_new request token now r'
        ]

  -- The record after its claim.
  abbrev pub claim_record : Option ℕ → String → Execution Stored → Execution Stored
  claim_record launcher_pid update_token e = record e {
    claimed = true;
    launcher_pid = launcher_pid;
    update_token = some update_token;
  }

  unfoldable pub claim_new :
      ClaimRequest
      → String
      → Execution Stored
      → Registry Stored
      → Reply (Claimed Stored) × Registry Stored
  claim_new request update_token e r =
      let spec = e.request in
      (
        ok (record {
          execution_id = spec.execution_id;
          update_token = update_token;
          command = spec.command;
          command_digest = spec.command_digest;
          workdir = spec.workdir;
          host = spec.host;
          placement = spec.placement;
          profiling = spec.profiling;
        }),
        record r {
          by_execution_id =
              put string_discrete request.execution_id
                (claim_record request.launcher_pid update_token e) r.by_execution_id;
          by_token = pop string_discrete e.token r.by_token;
        },
      )

  -- The tests of `claim` on the record that it finds, in their order.
  unfoldable pub claim_found :
      ClaimRequest
      → (now : ℕ) → String
      → Execution Stored
      → Registry Stored
      → Reply (Claimed Stored) × Registry Stored
  claim_found request now update_token e r =
      if is_closed e.request.gateway_id e.request.runtime_id r
      then refuse 409 "runtime_finalized" r
      else if e.claimed
      then refuse 409 "execution_already_claimed" r
      else if not (is_yes (string_discrete e.token request.token))
      then refuse 403 "invalid_execution_token" r
      else if leb e.expires_at now
      then refuse 410 "execution_token_expired" r
      else claim_new request update_token e r

  -- `claim`; `update_token` is the new token.
  unfoldable pub claim :
      ClaimRequest
      → (swept now : ℕ) → (update_token : String) → Registry Stored
      → Reply (Claimed Stored) × Registry Stored
  claim request swept now update_token r =
      let r' = sweep swept r in
      elim (find request.execution_id r') [
        | none ↦ refuse 404 "execution_not_found" r'
        | some e ↦ claim_found request now update_token e r'
      ]
