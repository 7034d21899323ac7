-- ===== src/Executions.antt =====
-- services/sidecar/src/clawtune_sidecar/executions.py: `ExecutionRegistry`, its records and the
-- sweep that most methods begin with. Times are microseconds, the resolution of `datetime`; each
-- `datetime.now(UTC)` is an argument. `Stored` is the type of what the registry only stores or
-- compares: placements, profiles, and the float of a timeout.
pub mod Calls
pub mod Reports
pub mod Queries
pub mod Adopted
pub mod Sweep
pub mod Linked
pub mod Claims
pub mod Updates
pub mod Once
pub mod Again
pub mod Machine
pub mod Finalized
pub mod Continued
pub mod Every
pub mod Lasting
use claw_tune.Base.{
  ℕ, ◌+◌, ◌*◌, ℤ, Bool, true, false, not, ◌&&◌, ◌||◌, Option, none, some, String, List, [], ◌∷◌,
  is_yes, is_none, if◌then◌else◌, leb, string_discrete, option_discrete,
}
use claw_tune.Dict.{Dict, get, put, pop, matching}
use claw_tune.Identity.{Subject, Attr, missing, text, same}

pub data Backend : Type 0 where
  marker managed_wrapper : Backend

-- `ExecutionRegistrationRequest`
pub record Request (Stored : Type 0) : Type 0 where
  pub execution_id : String
  pub gateway_id : Option String
  pub runtime_id : Option String
  pub repo : Option String
  pub agent_id : Option String
  pub session_id : Option String
  pub tool_call_id : Option String
  pub lease_id : Option String
  pub run_id : Option String
  pub session_key_hash : Option String
  pub command_digest : String
  pub command : String
  pub workdir : Option String
  pub host : String
  pub placement : Option Stored
  pub profiling : Option Stored
  pub backend : Backend

pub data ScopeKind : Type 0 where
  pid_scope cgroup_v2 : ScopeKind

-- `ResourceScope`
pub record ResourceScope : Type 0 where
  pub kind : ScopeKind
  pub execution_id : Option String
  pub pid : Option ℕ
  pub root_pid : Option ℕ
  pub process_start_time : Option ℕ
  pub root_starttime_ticks : Option ℕ
  pub cgroup_path : Option String
  pub pid_namespace_inode : Option ℕ
  pub container_id : Option String
  pub include_children : Bool
  pub source : Option String
  pub attribution_source : Option String

-- `ExecutionRecord`
pub record Execution (Stored : Type 0) : Type 0 where
  pub request : Request Stored
  pub token : String
  pub expires_at : ℕ
  pub update_token : Option String
  pub scope : Option ResourceScope
  pub claimed : Bool
  pub launcher_pid : Option ℕ
  pub exit_code : Option ℤ
  pub signal : Option ℕ
  pub exited : Bool
  pub owned_cgroup_path : Option String
  pub trusted_root_pid : Option ℤ
  pub completed_at : Option ℕ
  pub created_at : Option ℕ
  pub aborted_reason : Option String
  pub confirmed_timeout : Bool
  pub timeout_duration_lower_bound_ms : Option Stored

pub record Registry (Stored : Type 0) : Type 0 where
  pub token_ttl_s : ℕ
  pub completed_retention_s : ℕ
  pub marker_retention_s : ℕ
  pub by_execution_id : Dict String (Execution Stored)
  pub by_token : Dict String String
  pub closed_runtimes : List (String × String)

abbrev pub seconds : ℕ → ℕ
seconds n = n * 1000000

-- `timedelta` arithmetic turned round: `t <= now - d` is `t + d <= now`.
abbrev pub is_older : Option ℕ → ℕ → ℕ → Bool
is_older none age now = false
is_older (some t) age now = leb (t + seconds age) now

abbrev pub is_marker : Backend → Bool
is_marker marker = true
is_marker managed_wrapper = false

-- The test of `require_runtime_open`.
abbrev pub is_closed_by : Option String → Option String → List (String × String) → Bool
is_closed_by gateway_id runtime_id [] = false
is_closed_by gateway_id runtime_id ((gateway, runtime) ∷ closed) =
    (same (some runtime) runtime_id && (is_none gateway_id || same (some gateway) gateway_id))
    || is_closed_by gateway_id runtime_id closed

-- What `getattr` reads from a request.
abbrev pub attr : Option String → Attr
attr none = missing
attr (some s) = text s

module _ {Stored : Type 0} where
  -- `ExecutionRegistry()` with the given ages.
  abbrev pub new_registry : ℕ → ℕ → ℕ → Registry Stored
  new_registry ttl completed markers = record {
    token_ttl_s = ttl;
    completed_retention_s = completed;
    marker_retention_s = markers;
    by_execution_id = [];
    by_token = [];
    closed_runtimes = [];
  }

  -- The condition of `_sweep`: never claimed and too old, or exited long enough ago.
  abbrev pub is_stale : Registry Stored → ℕ → Execution Stored → Bool
  is_stale r now e =
      (not e.claimed && (not (is_marker e.request.backend) && leb e.expires_at now))
      || ((not e.claimed
            && (is_marker e.request.backend && is_older e.created_at r.marker_retention_s now))
          || (e.exited && is_older e.completed_at r.completed_retention_s now))

  -- The body of the loop of `_sweep`.
  unfoldable pub drop : String → Registry Stored → Registry Stored
  drop execution_id r = elim (get string_discrete execution_id r.by_execution_id) [
    | none ↦ r
    | some e ↦ record r {
      by_execution_id = pop string_discrete execution_id r.by_execution_id;
      by_token = pop string_discrete e.token r.by_token;
    }
  ]

  unfoldable pub drop_all : List String → Registry Stored → Registry Stored
  drop_all [] r = r
  drop_all (k ∷ ks) r = drop_all ks (drop k r)

  unfoldable pub sweep : ℕ → Registry Stored → Registry Stored
  sweep now r = drop_all (matching (is_stale r now) r.by_execution_id) r

  abbrev pub is_closed : Option String → Option String → Registry Stored → Bool
  is_closed gateway_id runtime_id r = is_closed_by gateway_id runtime_id r.closed_runtimes

  unfoldable pub close_runtime : String → String → Registry Stored → Registry Stored
  close_runtime gateway_id runtime_id r = record r {
    closed_runtimes = (gateway_id, runtime_id) ∷ r.closed_runtimes;
  }

  abbrev pub subject_of : Request Stored → Subject
  subject_of q = record {
    gateway_id = attr q.gateway_id;
    runtime_id = attr q.runtime_id;
    agent_id = attr q.agent_id;
    session_id = attr q.session_id;
    session_key = missing;
    session_key_hash = attr q.session_key_hash;
    run_id = attr q.run_id;
    event_id = missing;
    tool_call_id = attr q.tool_call_id;
  }

  -- The equality of two requests, field by field.
  pub request_discrete : Discrete Stored → Discrete (Request Stored)
  request_discrete d = hlevel (d, string_discrete)
