-- ===== src/Executions/Continued.antt =====
-- What any call leaves of the executions: each one that is there was there before, or is new.
use claw_tune.Base.{
  ℕ, ℤ, ℤ_discrete, ◌≡◌, refl, sym, ap, ◌∙◌, inl, inr, true, Option, none, some, String, false,
  is_positive, arith, string_discrete, Option-cases, Bool-cases,
}
use claw_tune.Dict.{pop}
use claw_tune.Executions.{Execution, Registry, ResourceScope, sweep}
use claw_tune.Executions.Calls.{
  ClaimRequest, find, store, claim_record, claim_new, claim_found, claim,
}
use claw_tune.Executions.Reports.{
  complete_record, mark_completed, abort, update_failure, report, scope_record, update_scope,
  bind_trusted_root, is_other_root,
}
use claw_tune.Executions.Linked.{IsLinked, get-put-some}
use claw_tune.Executions.Once.{unswept}

module _ {Stored : Type 0} where
  -- The second record has the token of the first, and its claim and its root, if it had such.
  pub record Continues (f e : Execution Stored) : Type 0 where
    pub token : e.token ≡ f.token
    pub claimed : f.claimed ≡ true → e.claimed ≡ true
    pub root : (pid : ℤ) → f.trusted_root_pid ≡ some pid → e.trusted_root_pid ≡ some pid

  pub continues_refl : (e : Execution Stored) → Continues e e
  continues_refl e = record { token = refl; claimed = λ c. c; root = λ pid c. c }

  continues_trans : {e f g : Execution Stored} → Continues e f → Continues f g → Continues e g
  continues_trans c d = record {
    token = d.token ∙ c.token;
    claimed = λ h. d.claimed (c.claimed h);
    root = λ pid h. d.root pid (c.root pid h);
  }

  -- Every execution of the second registry continues one of the first under the same identifier.
  pub record Came (r s : Registry Stored) : Type 0 where
    pub before :
        (k : String) (e : Execution Stored)
        → find k s ≡ some e
        → (f : Execution Stored) × (find k r ≡ some f) × Continues f e

  Came-refl : (r : Registry Stored) → Came r r
  Came-refl r = record { before = λ k e h. (e, h, continues_refl e) }

  Came-trans : {r s t : Registry Stored} → Came r s → Came s t → Came r t
  Came-trans a b = record {
    before = λ k e h.
        let (f, there, c) = b.before k e h in
        let (g, old, d) = a.before k f there in (g, old, continues_trans d c);
  }

  pub sweep-Came : (now : ℕ) (r : Registry Stored) → IsLinked r → Came r (sweep now r)
  sweep-Came now r l = record { before = λ k e h. (e, unswept now k e r l h, continues_refl e) }

  store-Came :
      (k : String) (f g : Execution Stored) (r : Registry Stored)
      → find k r ≡ some f
      → Continues f g
      → Came r (store k g r)
  store-Came k f g r found c = record {
    before = λ j e h. elim (get-put-some j k g r.by_execution_id h) [
      | inl (p, q) ↦ (f, rw (← p) found, rw (← q) c)
      | inr (_, old) ↦ (e, old, continues_refl e)
    ];
  }

  claim_found-Came :
      (q : ClaimRequest) (now : ℕ) (token : String) (e : Execution Stored) (r : Registry Stored)
      → find q.execution_id r ≡ some e
      → Came r (claim_found q now token e r).1
  unfolding claim_found claim_new
  claim_found-Came q now token e r found =
      let s = store q.execution_id (claim_record q.launcher_pid token e) r in
      let c : Came r s =
        store-Came q.execution_id e (claim_record q.launcher_pid token e) r found
          (record { token = refl; claimed = λ h. refl; root = λ pid h. h }) in
      ground (arith, Came-refl r, taken s c)
    where
      -- The token table does not matter.
      taken :
          (s : Registry Stored)
          → Came r s
          → Came r (record s { by_token = pop string_discrete e.token r.by_token })
      taken s c = record { before = c.before }

  pub claim-Came :
      (q : ClaimRequest) (swept now : ℕ) (token : String) (r : Registry Stored)
      → IsLinked r
      → Came r (claim q swept now token r).1
  unfolding claim
  claim-Came q swept now token r l =
      let r' = sweep swept r in
      elim (Option-cases (find q.execution_id r')) [
        | inl absent ↦ rw (absent, claim) (sweep-Came swept r l)
        | inr (e, there) ↦
            rw (there, claim)
              (Came-trans (sweep-Came swept r l) (claim_found-Came q now token e r' there))
      ]

  pub report-Came :
      (k token : String) (swept : ℕ) (change : Execution Stored → Execution Stored)
      (r : Registry Stored)
      → ((e : Execution Stored) → Continues e (change e))
      → IsLinked r
      → Came r (report k token swept change r).1
  unfolding report
  report-Came k token swept change r c l =
      let r' = sweep swept r in
      elim (Option-cases (find k r')) [
        | inl absent ↦ rw (absent, report) (sweep-Came swept r l)
        | inr (e, there) ↦ elim (Option-cases (update_failure token e r')) [
          | inr (f, bad) ↦ rw (there, report, bad) (sweep-Came swept r l)
          | inl good ↦
              rw (there, report, good)
                (Came-trans (sweep-Came swept r l) (store-Came k e (change e) r' there (c e)))
        ]
      ]

  pub mark_completed-Came :
      (k : String) (now : ℕ) (r : Registry Stored) → Came r (mark_completed k now r)
  unfolding mark_completed
  mark_completed-Came k now r = elim (Option-cases (find k r)) [
    | inl absent ↦ rw (absent, mark_completed) (Came-refl r)
    | inr (e, there) ↦
        rw (there, mark_completed)
          (store-Came k e (complete_record now e) r there
            (record { token = refl; claimed = λ h. h; root = λ pid h. h }))
  ]

  pub abort-Came :
      (k reason : String) (now : ℕ) (r : Registry Stored) → Came r (abort k reason now r).1
  unfolding abort
  abort-Came k reason now r = elim (Option-cases (find k r)) [
    | inl absent ↦ rw (absent, abort) (Came-refl r)
    | inr (e, there) ↦
        let marked = record e { aborted_reason = some reason } in
        let c : Came r (mark_completed k now (store k marked r)) =
          Came-trans
            (store-Came k e marked r there
              (record { token = refl; claimed = λ h. h; root = λ pid h. h }))
            (mark_completed-Came k now (store k marked r)) in
        ground (arith, there, Came-refl r, c)
  ]

  scope_record-Continues :
      (s : ResourceScope) (p : Option String) (e : Execution Stored)
      → Continues e (scope_record s p e)
  scope_record-Continues s none e = record { token = refl; claimed = λ h. h; root = λ pid h. h }
  scope_record-Continues s (some path) e = record {
    token = refl;
    claimed = λ h. h;
    root = λ pid h. h;
  }

  pub update_scope-Came :
      (k : String) (s : ResourceScope) (p : Option String) (r : Registry Stored)
      → Came r (update_scope k s p r).1
  unfolding update_scope
  update_scope-Came k s p r = elim (Option-cases (find k r)) [
    | inl absent ↦ rw (absent, update_scope) (Came-refl r)
    | inr (e, there) ↦
        rw (there, update_scope)
          (store-Came k e (scope_record s p e) r there (scope_record-Continues s p e))
  ]

  pub bind_trusted_root-Came :
      (k : String) (pid : ℤ) (r : Registry Stored) → Came r (bind_trusted_root k pid r).1
  unfolding bind_trusted_root
  bind_trusted_root-Came k pid r = elim (Option-cases (find k r)) [
    | inl absent ↦ rw (absent, bind_trusted_root) (Came-refl r)
    | inr (e, there) ↦ elim (Bool-cases (is_positive pid)) [
      | inl good ↦ elim (Bool-cases (is_other_root e.trusted_root_pid pid)) [
        | inl other ↦ rw (there, bind_trusted_root, good, other) (Came-refl r)
        | inr same ↦
            rw (there, bind_trusted_root, good, same)
              (store-Came k e (record e { trusted_root_pid = some pid }) r there
                (record {
                  token = refl;
                  claimed = λ c. c;
                  root = λ p h. ap some (same_root p (rw h at same));
                }))
      ]
      | inr bad ↦ rw (there, bind_trusted_root, bad) (Came-refl r)
    ]
  ]
    where
      same_root : (p : ℤ) → is_other_root (some p) pid ≡ false → pid ≡ p
      same_root p h = elim (ℤ_discrete p pid) [
        | yes e ↦ sym e
        | no n ↦ absurd (ground (arith, h, n))
      ]
