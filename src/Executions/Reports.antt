-- ===== src/Executions/Reports.antt =====
-- The methods of `ExecutionRegistry` that change the record of a known execution: the launcher's
-- reports, behind the update token, and the sidecar's own.
use claw_tune.Base.{
  ℕ, ℤ, ℤ_discrete, is_positive, Bool, true, false, not, ◌||◌, Option, none, some, String, is_yes,
  is_none, if◌then◌else◌, string_discrete, option_discrete,
}
use claw_tune.Executions.{
  ResourceScope, pid_scope, cgroup_v2, Execution, Registry, sweep, is_closed,
}
use claw_tune.Executions.Calls.{
  Failure, http, key_error, Reply, ok, raised, StartedRequest, ExitedRequest, is_truthy, refuse,
  find, store,
}

-- The scope that `started` stores.
unfoldable pub started_scope : String → StartedRequest → ResourceScope
started_scope execution_id request = record {
  kind = if is_truthy request.cgroup_path then cgroup_v2 else pid_scope;
  execution_id = some execution_id;
  pid = some request.child_pid;
  root_pid = some request.child_pid;
  process_start_time = none;
  root_starttime_ticks = request.process_starttime_ticks;
  cgroup_path = request.cgroup_path;
  pid_namespace_inode = request.pid_namespace_inode;
  container_id = request.container_id;
  include_children = true;
  source = some "clawtune-launch";
  attribution_source = some "clawtune-launch";
}

-- A root is set, and it is another one.
abbrev pub is_other_root : Option ℤ → ℤ → Bool
is_other_root none host_pid = false
is_other_root (some root) host_pid = not (is_yes (ℤ_discrete root host_pid))

module _ {Stored : Type 0} where
  -- `mark_completed`
  abbrev pub complete_record : ℕ → Execution Stored → Execution Stored
  complete_record now e = record e { exited = true; completed_at = some now }

  unfoldable pub mark_completed : String → ℕ → Registry Stored → Registry Stored
  mark_completed execution_id now r = elim (find execution_id r) [
    | none ↦ r
    | some e ↦ store execution_id (complete_record now e) r
  ]

  unfoldable pub abort : String → String → ℕ → Registry Stored → Reply (Unit {0}) × Registry Stored
  unfolding mark_completed
  abort execution_id reason now r = elim (find execution_id r) [
    | none ↦ (raised key_error, r)
    | some e ↦ if e.exited then (ok tt, r) else (
      ok tt,
      mark_completed execution_id now
          (store execution_id (record e { aborted_reason = some reason }) r),
    )
  ]

  -- `_require_update` once the record is found: `none` where the caller may report.
  unfoldable pub update_failure : String → Execution Stored → Registry Stored → Option Failure
  update_failure update_token e r =
      if not e.claimed || is_none e.update_token
      then some (http 409 "execution_not_claimed")
      else if not (is_yes (option_discrete string_discrete e.update_token (some update_token)))
      then some (http 403 "invalid_execution_update_token")
      else if is_closed e.request.gateway_id e.request.runtime_id r
      then some (http 409 "runtime_finalized")
      else none

  -- A report: `_require_update`, and then a change of the record.
  unfoldable pub report :
      String
      → String
      → ℕ
      → (Execution Stored → Execution Stored)
      → Registry Stored
      → Reply (Unit {0}) × Registry Stored
  report execution_id update_token swept change r =
      let r' = sweep swept r in
      elim (find execution_id r') [
        | none ↦ refuse 404 "execution_not_found" r'
        | some e ↦ elim (update_failure update_token e r') [
          | some failure ↦ (raised failure, r')
          | none ↦ (ok tt, store execution_id (change e) r')
        ]
      ]

  abbrev pub start_record : String → StartedRequest → Execution Stored → Execution Stored
  start_record execution_id request e = record e {
    launcher_pid = some request.launcher_pid;
    scope = some (started_scope execution_id request);
  }

  unfoldable pub started :
      String → StartedRequest → ℕ → Registry Stored → Reply (Unit {0}) × Registry Stored
  started execution_id request swept =
      report execution_id request.update_token swept (start_record execution_id request)

  abbrev pub or_old : Option Stored → Option Stored → Option Stored
  or_old none old = old
  or_old (some new) old = some new

  abbrev pub exit_record : ExitedRequest Stored → ℕ → Execution Stored → Execution Stored
  exit_record request now e = record e {
    exit_code = request.exit_code;
    signal = request.signal;
    confirmed_timeout = e.confirmed_timeout || request.confirmed_timeout;
    timeout_duration_lower_bound_ms =
        or_old request.timeout_duration_lower_bound_ms e.timeout_duration_lower_bound_ms;
    exited = true;
    completed_at = some now;
  }

  unfoldable pub exited :
      String
      → ExitedRequest Stored
      → (swept now : ℕ) → Registry Stored
      → Reply (Unit {0}) × Registry Stored
  exited execution_id request swept now =
      report execution_id request.update_token swept (exit_record request now)

  abbrev pub scope_record : ResourceScope → Option String → Execution Stored → Execution Stored
  scope_record scope none e = record e { scope = some scope }
  scope_record scope (some path) e = record e { scope = some scope; owned_cgroup_path = some path }

  unfoldable pub update_scope :
      String → ResourceScope → Option String → Registry Stored → Reply (Unit {0}) × Registry Stored
  update_scope execution_id scope owned_cgroup_path r = elim (find execution_id r) [
    | none ↦ refuse 404 "execution_not_found" r
    | some e ↦ (ok tt, store execution_id (scope_record scope owned_cgroup_path e) r)
  ]

  unfoldable pub bind_trusted_root :
      String → ℤ → Registry Stored → Reply (Unit {0}) × Registry Stored
  bind_trusted_root execution_id host_pid r = elim (find execution_id r) [
    | none ↦ refuse 404 "execution_not_found" r
    | some e ↦
        if not (is_positive host_pid)
        then refuse 422 "invalid_trusted_root_pid" r
        else if is_other_root e.trusted_root_pid host_pid
        then refuse 409 "trusted_execution_root_changed" r
        else (ok tt, store execution_id (record e { trusted_root_pid = some host_pid }) r)
  ]
