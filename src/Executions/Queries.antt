-- ===== src/Executions/Queries.antt =====
-- The methods of `ExecutionRegistry` that only look, after a sweep.
use claw_tune.Base.{
  ℕ, ltb, Bool, not, ◌&&◌, ◌||◌, Option, none, some, String, List, [], ◌∷◌, is_none,
}
use claw_tune.Dict.{keep, values}
use claw_tune.Identity.{Subject, string_attr, owners_compatible, same}
use claw_tune.Executions.{ResourceScope, Execution, Registry, sweep, subject_of, is_marker}
use claw_tune.Executions.Calls.{find}

-- `getattr(event, "tool_call_id", None)` where it is a text that is not empty. A value of another
-- type is equal to no `tool_call_id` of a record.
module _ {Stored : Type 0} where
  unfoldable pub lookup : String → ℕ → Registry Stored → Option (Execution Stored) × Registry Stored
  lookup execution_id now r = let r' = sweep now r in (find execution_id r', r')

  unfoldable pub scope_of : String → ℕ → Registry Stored → Option ResourceScope × Registry Stored
  scope_of execution_id now r =
      let r' = sweep now r in (elim (find execution_id r') [ none ↦ none | some e ↦ e.scope ], r')

  abbrev pub is_active : Execution Stored → Bool
  is_active e = e.claimed && not e.exited

  unfoldable pub active : ℕ → Registry Stored → List (Execution Stored) × Registry Stored
  active now r = let r' = sweep now r in (values (keep is_active r'.by_execution_id), r')

  -- `later` is the clock at the test of a deadline.
  abbrev pub is_pending_marker : ℕ → Execution Stored → Bool
  is_pending_marker later e =
      not e.claimed && (is_marker e.request.backend && ltb later e.expires_at)

  -- The readings of the tests, one for each record, are taken to be equal.
  unfoldable pub pending_marker :
      (swept later : ℕ) → Registry Stored → List (Execution Stored) × Registry Stored
  pending_marker swept later r =
      let r' = sweep swept r in (values (keep (is_pending_marker later) r'.by_execution_id), r')

  abbrev pub is_of_runtime : Option String → Option String → Execution Stored → Bool
  is_of_runtime runtime_id gateway_id e =
      same e.request.runtime_id runtime_id
      && (is_none gateway_id
          || (is_none e.request.gateway_id || same e.request.gateway_id gateway_id))

  unfoldable pub for_runtime :
      Option String
      → Option String
      → ℕ
      → Registry Stored
      → List (Execution Stored) × Registry Stored
  for_runtime runtime_id gateway_id now r =
      let r' = sweep now r in
      (values (keep (is_of_runtime runtime_id gateway_id) r'.by_execution_id), r')

  abbrev pub is_call_match : String → Subject → Execution Stored → Bool
  is_call_match tool_call_id event e =
      e.claimed
      && (same e.request.tool_call_id (some tool_call_id)
          && owners_compatible (subject_of e.request) event)

  -- `len(matches) != 1`
  abbrev pub only_one : List (Execution Stored) → Option String
  only_one (e ∷ []) = some e.request.execution_id
  only_one _ = none

  unfoldable pub unique_tool_call_execution_id :
      Subject → ℕ → Registry Stored → Option String × Registry Stored
  unique_tool_call_execution_id event now r =
      let r' = sweep now r in
      elim (string_attr event.tool_call_id) [
        | none ↦ (none, r')
        | some tool_call_id ↦
            (only_one (values (keep (is_call_match tool_call_id event) r'.by_execution_id)), r')
      ]
