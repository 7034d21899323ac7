-- ===== src/Executions/Updates.antt =====
-- The reports of a launcher and the sidecar's own changes.
use mathlib.Core.Logic.{ite}
use claw_tune.Base.{
  ℕ, ℤ, ◌≡◌, refl, inl, inr, true, false, Option, none, some, String, arith, string_discrete,
  Option-cases,
}
use claw_tune.Dict.Laws.{get-put, get-put_self}
use claw_tune.Executions.{Execution, Registry, ResourceScope, sweep, is_closed}
use claw_tune.Executions.Calls.{Failure, ok, raised, StartedRequest, ExitedRequest, find, store}
use claw_tune.Executions.Reports.{
  complete_record, mark_completed, abort, update_failure, report, start_record, started,
  exit_record, exited, scope_record, update_scope, bind_trusted_root,
}
use claw_tune.Executions.Linked.{IsLinked, sweep-IsLinked, store-IsLinked}

module _ {Stored : Type 0} where
  -- A change that keeps the request, the token and whether the execution is claimed.
  abbrev pub KeepsClaim : (Execution Stored → Execution Stored) → Type 0
  KeepsClaim change =
      (e : Execution Stored)
      → ((change e).request ≡ e.request)
        × ((change e).token ≡ e.token)
        × ((change e).claimed ≡ e.claimed)

  change-IsLinked :
      (k : String) (change : Execution Stored → Execution Stored) (e : Execution Stored)
      (r : Registry Stored)
      → KeepsClaim change
      → IsLinked r
      → find k r ≡ some e
      → IsLinked (store k (change e) r)
  change-IsLinked k change e r keeps l found =
      let (q, t, c) = keeps e in store-IsLinked r l k e found (change e) q t c

  -- What an accepted report says about the registry before it, after its sweep, and after it.
  pub record IsReport (k : String) (update_token : String)
      (change : Execution Stored → Execution Stored) (r s : Registry Stored) : Type 0 where
    pub execution : Execution Stored
    pub there : find k r ≡ some execution
    pub claimed : execution.claimed ≡ true
    pub authorised : execution.update_token ≡ some update_token
    pub runtime_open : is_closed execution.request.gateway_id execution.request.runtime_id r ≡ false
    pub changed : find k s ≡ some (change execution)
    pub after :
        (j : String) → find j s ≡ ite (string_discrete k j) (some (change execution)) (find j r)

  module _ (k : String) (update_token : String) (swept : ℕ)
      (change : Execution Stored → Execution Stored) (r : Registry Stored) where
    -- A report that is accepted found a claimed execution that its sweep left, with its update token
    -- and its runtime open; it changes the record of that execution and no other.
    pub report_sound :
        (report k update_token swept change r).0 ≡ ok tt
        → IsReport k update_token change (sweep swept r) (report k update_token swept change r).1
    unfolding report update_failure
    report_sound h =
        let r' = sweep swept r in
        elim (Option-cases (find k r')) [
          | inl absent ↦ absurd (ground (arith, absent, h))
          | inr (e, there) ↦ elim (Option-cases (update_failure update_token e r')) [
            | inr (f, bad) ↦ absurd (ground (arith, there, bad, h))
            | inl good ↦ record {
              execution = e;
              there = there;
              claimed = ground (arith, good);
              authorised = ground (arith, good);
              runtime_open = ground (arith, good);
              changed = ground (
                arith,
                there,
                good,
                get-put_self string_discrete k (change e) r'.by_execution_id,
              );
              after = λ j.
                  ground
                    (arith, there, good, get-put string_discrete j k (change e) r'.by_execution_id);
            }
          ]
        ]

    -- A report that is refused changes nothing beyond the sweep.
    pub report_refused :
        (f : Failure)
        → (report k update_token swept change r).0 ≡ raised f
        → (report k update_token swept change r).1 ≡ sweep swept r
    unfolding report
    report_refused f h = elim (Option-cases (find k (sweep swept r))) [
      | inl absent ↦ rw (absent, report)
      | inr (e, there) ↦ elim (Option-cases (update_failure update_token e (sweep swept r))) [
        | inr (g, bad) ↦ rw (there, report, bad)
        | inl good ↦ absurd (ground (arith, there, good, h))
      ]
    ]

    report-IsLinked :
        KeepsClaim change → IsLinked r → IsLinked (report k update_token swept change r).1
    unfolding report
    report-IsLinked keeps l =
        let r' = sweep swept r in
        let l' = sweep-IsLinked swept r l in
        elim (Option-cases (find k r')) [
          | inl absent ↦ rw (absent, report) l'
          | inr (e, there) ↦ elim (Option-cases (update_failure update_token e r')) [
            | inr (g, bad) ↦ rw (there, report, bad) l'
            | inl good ↦ rw (there, report, good) (change-IsLinked k change e r' keeps l' there)
          ]
        ]

  pub started-IsLinked :
      (k : String) (q : StartedRequest) (swept : ℕ) (r : Registry Stored)
      → IsLinked r
      → IsLinked (started k q swept r).1
  unfolding started
  started-IsLinked k q swept r =
      report-IsLinked k q.update_token swept (start_record k q) r (λ e. (refl, refl, refl))

  pub exited-IsLinked :
      (k : String) (q : ExitedRequest Stored) (swept now : ℕ) (r : Registry Stored)
      → IsLinked r
      → IsLinked (exited k q swept now r).1
  unfolding exited
  exited-IsLinked k q swept now r =
      report-IsLinked k q.update_token swept (exit_record q now) r (λ e. (refl, refl, refl))

  pub mark_completed-IsLinked :
      (k : String) (now : ℕ) (r : Registry Stored) → IsLinked r → IsLinked (mark_completed k now r)
  unfolding mark_completed
  mark_completed-IsLinked k now r l = elim (Option-cases (find k r)) [
    | inl absent ↦ rw (absent, mark_completed) l
    | inr (e, there) ↦
        rw (there, mark_completed)
          (change-IsLinked k (complete_record now) e r (λ e. (refl, refl, refl)) l there)
  ]

  pub abort-IsLinked :
      (k reason : String) (now : ℕ) (r : Registry Stored)
      → IsLinked r
      → IsLinked (abort k reason now r).1
  unfolding abort
  abort-IsLinked k reason now r l = elim (Option-cases (find k r)) [
    | inl absent ↦ rw (absent, abort) l
    | inr (e, there) ↦
        let marked = record e { aborted_reason = some reason } in
        ground (
          arith,
          there,
          l,
          mark_completed-IsLinked k now (store k marked r) (
              change-IsLinked k (λ e. record e { aborted_reason = some reason }) e r
                (λ e. (refl, refl, refl)) l there),
        )
  ]

  scope_record-KeepsClaim : (s : ResourceScope) (p : Option String) → KeepsClaim (scope_record s p)
  scope_record-KeepsClaim s none e = (refl, refl, refl)
  scope_record-KeepsClaim s (some path) e = (refl, refl, refl)

  pub update_scope-IsLinked :
      (k : String) (s : ResourceScope) (p : Option String) (r : Registry Stored)
      → IsLinked r
      → IsLinked (update_scope k s p r).1
  unfolding update_scope
  update_scope-IsLinked k s p r l = elim (Option-cases (find k r)) [
    | inl absent ↦ rw (absent, update_scope) l
    | inr (e, there) ↦
        rw (there, update_scope)
          (change-IsLinked k (scope_record s p) e r (scope_record-KeepsClaim s p) l there)
  ]

  pub bind_trusted_root-IsLinked :
      (k : String) (pid : ℤ) (r : Registry Stored)
      → IsLinked r
      → IsLinked (bind_trusted_root k pid r).1
  unfolding bind_trusted_root
  bind_trusted_root-IsLinked k pid r l = elim (Option-cases (find k r)) [
    | inl absent ↦ rw (absent, bind_trusted_root) l
    | inr (e, there) ↦ ground (
      arith,
      there,
      l,
      change-IsLinked k (λ e. record e { trusted_root_pid = some pid }) e r
          (λ e. (refl, refl, refl)) l there,
    )
  ]
