-- ===== src/Admission/Leases/Capacity.antt =====
-- The limits on leases and on millicores along a sequence of calls.
use claw_tune.Base.{
  ℕ, ◌+◌, ◌≤◌, ◌<◌, ◌≡◌, refl, ◌∙◌, ◌⊎◌, inl, inr, Bool, true, not, Option, none, some, String,
  List, [], ◌∷◌, length, arith, string_discrete, ltb, ltb→lt, leb→le, ◌&&◌, ◌||◌, Bool-cases,
  Option-cases,
}
use claw_tune.Dict.{get, put, pop, sum_values}
use claw_tune.Dict.Laws.{
  put-IsUnique, pop-IsUnique, put-Each, pop-Each, length-put_old, length-pop-le, length-put-le,
  sum-pop-le, sum-put_old, sum-put-le,
}
use claw_tune.Dict.Keep.{pop_all-matching, keep-IsUnique, keep-Each, length-keep-le, sum-keep-le}
use claw_tune.Admission.Leases.{
  LeaseManager, Lease, Demand, at, never, used_mcpu, expire, is_expired, clamp_demand, fits_budget,
  try_acquire, release, active_count, active_mcpu, bind_execution, renew, release_execution,
  release_runtime, ms, new_manager, is_refused, is_bound_to_other, pop_matching,
}
use claw_tune.Identity.{OwnerKey}
use claw_tune.Admission.Leases.Ops.{
  Op, acquire_round, release_lease, count_leases, sum_demand, bind, renew_lease, end_execution,
  end_runtime, step, run, IsAdmitted, Within,
}

Within-le : (o : Option ℕ) (a b : ℕ) → b ≤ a → Within o a → Within o b
Within-le none a b le h = tt
Within-le (some budget) a b le h = omega arith

fits→Within : (o : Option ℕ) (n : ℕ) → fits_budget o n ≡ true → Within o n
fits→Within none n h = tt
fits→Within (some budget) n h = leb→le n budget h

-- Dropping the matching leases keeps the invariant.
pub pop_matching-IsAdmitted :
    (p : Lease → Bool) (m : LeaseManager) → IsAdmitted m → IsAdmitted (pop_matching p m).1
pop_matching-IsAdmitted p m h = rw (pop_all-matching string_discrete p m.leases h.unique) (record {
  unique = keep-IsUnique string_discrete q m.leases h.unique;
  bounded = omega (arith, length-keep-le q m.leases, h.bounded);
  within = Within-le m.cpu_budget_mcpu _ _ (sum-keep-le q (λ l. l.demand_mcpu) m.leases) h.within;
  named = keep-Each string_discrete q m.leases h.unique h.named;
  held = keep-Each string_discrete q m.leases h.unique h.held;
})
  where
    q : Lease → Bool
    q l = not (p l)

pub expire-IsAdmitted : (now : ℕ) (m : LeaseManager) → IsAdmitted m → IsAdmitted (expire now m)
unfolding expire
expire-IsAdmitted now m = pop_matching-IsAdmitted (is_expired now) m

pop-IsAdmitted :
    (k : String) (m : LeaseManager)
    → IsAdmitted m
    → IsAdmitted (record m { leases = pop string_discrete k m.leases })
pop-IsAdmitted k m h = record {
  unique = pop-IsUnique string_discrete k m.leases h.unique;
  bounded = omega (arith, length-pop-le string_discrete k m.leases, h.bounded);
  within =
      Within-le m.cpu_budget_mcpu _ _ (sum-pop-le string_discrete (λ l. l.demand_mcpu) k m.leases)
        h.within;
  named = pop-Each string_discrete k m.leases h.unique h.named;
  held = pop-Each string_discrete k m.leases h.unique h.held;
}

-- A new deadline or a new execution in the place of an old lease.
update-IsAdmitted :
    (k : String) (old new : Lease) (m : LeaseManager)
    → IsAdmitted m
    → get string_discrete k m.leases ≡ some old
    → new.lease_id ≡ old.lease_id
    → new.demand_mcpu ≡ old.demand_mcpu
    → (new.execution_id ≡ none) ⊎ (new.expires_at ≡ never)
    → IsAdmitted (record m { leases = put string_discrete k new m.leases })
update-IsAdmitted k old new m h found same_id same_demand ok = record {
  unique = put-IsUnique string_discrete k new m.leases h.unique;
  bounded = omega (arith, length-put_old string_discrete k new old m.leases found, h.bounded);
  within =
      Within-le m.cpu_budget_mcpu _ _
        (omega (
          arith,
          sum-put_old string_discrete (λ (l : Lease). l.demand_mcpu) k new old m.leases found
              same_demand,
        ))
        h.within;
  named = put-Each string_discrete k new m.leases (same_id ∙ h.named k old found) h.named;
  held = put-Each string_discrete k new m.leases ok h.held;
}

insert-IsAdmitted :
    (k : String) (l : Lease) (m : LeaseManager)
    → IsAdmitted m
    → l.lease_id ≡ k
    → l.execution_id ≡ none
    → length m.leases < m.max_global
    → Within m.cpu_budget_mcpu (used_mcpu m + l.demand_mcpu)
    → IsAdmitted (record m { leases = put string_discrete k l m.leases })
insert-IsAdmitted k l m h id free room fits = record {
  unique = put-IsUnique string_discrete k l m.leases h.unique;
  bounded = omega (arith, length-put-le string_discrete k l m.leases);
  within =
      Within-le m.cpu_budget_mcpu _ _
        (sum-put-le string_discrete (λ (l : Lease). l.demand_mcpu) k l m.leases) fits;
  named = put-Each string_discrete k l m.leases id h.named;
  held = put-Each string_discrete k l m.leases (inl free) h.held;
}

&&-true : (a b : Bool) → (a && b) ≡ true → (a ≡ true) × (b ≡ true)
&&-true a b h = ground arith

pub try_acquire-IsAdmitted :
    (d : Demand) (now stored : ℕ) (fresh : String) (m : LeaseManager)
    → IsAdmitted m
    → IsAdmitted (try_acquire d now stored fresh m).1
unfolding try_acquire
try_acquire-IsAdmitted d now stored fresh m h =
    let m' = expire now m in
    let h' = expire-IsAdmitted now m h in
    let total = used_mcpu m' + clamp_demand m.cpu_budget_mcpu d.demand_mcpu in
    elim (Bool-cases
      (ltb (length m'.leases) m'.max_global && fits_budget m'.cpu_budget_mcpu total)) [
        | inl ok ↦
            let (room, fits) = &&-true _ _ ok in
            rw ok (
              insert-IsAdmitted fresh _ m' h' refl refl (ltb→lt _ _ room)
                (fits→Within m'.cpu_budget_mcpu total fits))
        | inr full ↦ rw full h'
      ]

release-IsAdmitted :
    (k : Option String) (owner : Option OwnerKey) (m : LeaseManager)
    → IsAdmitted m
    → IsAdmitted (release k owner m).1
unfolding release
release-IsAdmitted none owner m h = h
release-IsAdmitted (some k) owner m h = elim (Option-cases (get string_discrete k m.leases)) [
  | inl absent ↦ rw (absent, release) h
  | inr (l, found) ↦ elim (Bool-cases (is_refused owner l)) [
    | inl bad ↦ rw (found, release, bad) h
    | inr good ↦ rw (found, release, good) (pop-IsAdmitted k m h)
  ]
]

bind_execution-IsAdmitted :
    (now : ℕ) (k : Option String) (e : String) (owner : Option OwnerKey) (m : LeaseManager)
    → IsAdmitted m
    → IsAdmitted (bind_execution now k e owner m).1
unfolding bind_execution
bind_execution-IsAdmitted now none e owner m h = h
bind_execution-IsAdmitted now (some k) e owner m h =
    let m' = expire now m in
    let h' = expire-IsAdmitted now m h in
    elim (Option-cases (get string_discrete k m'.leases)) [
      | inl absent ↦ rw (absent, bind_execution) h'
      | inr (l, found) ↦ elim (Bool-cases (is_refused owner l || is_bound_to_other e l)) [
        | inl bad ↦ rw (found, bind_execution, bad) h'
        | inr good ↦
            rw (found, bind_execution, good)
              (update-IsAdmitted k l _ m' h' found refl refl (inr refl))
      ]
    ]

renew-IsAdmitted :
    (now : ℕ) (k : Option String) (m : LeaseManager) → IsAdmitted m → IsAdmitted (renew now k m).1
unfolding renew
renew-IsAdmitted now none m h = h
renew-IsAdmitted now (some k) m h = elim (Option-cases (get string_discrete k m.leases)) [
  | inl absent ↦ rw (absent, renew) h
  | inr (l, found) ↦ elim (Option-cases l.execution_id) [
    | inl free ↦
        rw (found, renew, free)
          (update-IsAdmitted k l
            (record l { execution_id = none; expires_at = at (now + ms m.ttl_ms) }) m h found refl
            refl (inl refl))
    | inr (e, bound) ↦ rw (found, renew, bound) h
  ]
]

-- Every method keeps the invariant.
pub step-IsAdmitted : (op : Op) (m : LeaseManager) → IsAdmitted m → IsAdmitted (step op m)
unfolding step active_count active_mcpu release_execution release_runtime
step-IsAdmitted (acquire_round d now stored fresh) m h =
    try_acquire-IsAdmitted d now stored fresh m h
step-IsAdmitted (release_lease k owner) m h = release-IsAdmitted k owner m h
step-IsAdmitted (count_leases now) m h = expire-IsAdmitted now m h
step-IsAdmitted (sum_demand now) m h = expire-IsAdmitted now m h
step-IsAdmitted (bind now k e owner) m h = bind_execution-IsAdmitted now k e owner m h
step-IsAdmitted (renew_lease now k) m h = renew-IsAdmitted now k m h
step-IsAdmitted (end_execution e) m h = pop_matching-IsAdmitted _ m h
step-IsAdmitted (end_runtime r g) m h = pop_matching-IsAdmitted _ m h

pub run-IsAdmitted : (ops : List Op) (m : LeaseManager) → IsAdmitted m → IsAdmitted (run ops m)
unfolding run
run-IsAdmitted [] m h = h
run-IsAdmitted (op ∷ ops) m h = run-IsAdmitted ops (step op m) (step-IsAdmitted op m h)

none≢some {ℓ} : {A : Type ℓ} {a : A} → none ≡ some a → ⊥
none≢some e = cc

pub new-IsAdmitted :
    (max_global ttl_ms : ℕ) (budget : Option ℕ) → IsAdmitted (new_manager max_global ttl_ms budget)
unfolding get sum_values
new-IsAdmitted max_global ttl_ms budget = record {
  unique = tt;
  bounded = omega arith;
  within = empty budget;
  named = λ k l h. absurd (none≢some h);
  held = λ k l h. absurd (none≢some h);
}
  where
    empty : (o : Option ℕ) → Within o 0
    empty none = tt
    empty (some b) = omega arith

-- After any sequence of calls on a new manager: no identifier stands twice, there are at most
-- `max_global` leases, with a CPU budget their demands add up to at most the budget, each lease is
-- stored under its own identifier, and a lease with an execution has no deadline.
pub run-within_limits :
    (max_global ttl_ms : ℕ) (budget : Option ℕ) (ops : List Op)
    → IsAdmitted (run ops (new_manager max_global ttl_ms budget))
run-within_limits max_global ttl_ms budget ops =
    run-IsAdmitted ops _ (new-IsAdmitted max_global ttl_ms budget)
