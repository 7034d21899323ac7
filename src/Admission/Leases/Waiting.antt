-- ===== src/Admission/Leases/Waiting.antt =====
-- The waiting loop of `acquire`, with what other tasks do between its rounds.
use mathlib.Core.Path.{subst}
use claw_tune.Base.{
  ℕ, ◌+◌, ◌≤◌, ◌≡◌, ◌≢◌, refl, ap, ◌∙◌, ◌⊎◌, inl, inr, Option, none, some, String, List, [], ◌∷◌,
  arith, string_discrete, Bool-cases, Option-cases, leb, leb→le,
}
use claw_tune.Dict.{get}
use claw_tune.Dict.Laws.{get-put_self}
use claw_tune.Admission.Leases.{
  LeaseManager, Lease, Demand, ms, expire, clamp_demand, try_acquire, new_lease, release,
  active_count, active_mcpu, bind_execution, renew, release_execution, release_runtime,
}
use claw_tune.Admission.Leases.Ops.{
  Op, acquire_round, release_lease, bind, renew_lease, step, run, IsAdmitted, Round, acquired,
  timed_out, pending, poll, acquire,
}
use claw_tune.Admission.Leases.Capacity.{run-IsAdmitted, try_acquire-IsAdmitted}

-- Some round reads the clock at the deadline or later.
abbrev pub ReachesDeadline : ℕ → List Round → Type 0
ReachesDeadline deadline [] = ⊥
ReachesDeadline deadline (r ∷ rs) = (deadline ≤ r.checked) ⊎ ReachesDeadline deadline rs

poll_returns :
    (d : Demand) (deadline : ℕ) (rs : List Round) (m : LeaseManager)
    → ReachesDeadline deadline rs
    → (poll d deadline rs m).0 ≢ pending
unfolding poll
poll_returns d deadline [] m h = absurd h
poll_returns d deadline (r ∷ rs) m (inl late) = ground (arith, late)
poll_returns d deadline (r ∷ rs) m (inr later) = ground (
  arith,
  poll_returns d deadline rs (run r.others (try_acquire d r.now r.stored r.fresh m).1) later,
)

-- If some round reads the clock at the deadline or later, `acquire` returns, with a lease or with
-- none, whatever the other tasks do meanwhile.
pub acquire_returns :
    (d : Demand) (wait_ms start : ℕ) (rs : List Round) (m : LeaseManager)
    → ReachesDeadline (start + ms wait_ms) rs
    → (acquire d wait_ms start rs m).0 ≢ pending
unfolding acquire
acquire_returns d wait_ms start rs m h = poll_returns d (start + ms wait_ms) rs m h

poll_patient :
    (d : Demand) (deadline : ℕ) (rs : List Round) (m : LeaseManager)
    → (poll d deadline rs m).0 ≡ timed_out
    → ReachesDeadline deadline rs
unfolding poll
poll_patient d deadline [] m h = absurd (ground arith)
poll_patient d deadline (r ∷ rs) m h = elim (Bool-cases (leb deadline r.checked)) [
  | inl late ↦ inl (leb→le _ _ late)
  | inr early ↦ inr (
      poll_patient d deadline rs (run r.others (try_acquire d r.now r.stored r.fresh m).1)
        (ground arith))
]

-- `acquire` gives up only after a round that read the clock at its deadline or later.
pub acquire_patient :
    (d : Demand) (wait_ms start : ℕ) (rs : List Round) (m : LeaseManager)
    → (acquire d wait_ms start rs m).0 ≡ timed_out
    → ReachesDeadline (start + ms wait_ms) rs
unfolding acquire
acquire_patient d wait_ms start rs m h = poll_patient d (start + ms wait_ms) rs m h

poll-IsAdmitted :
    (d : Demand) (deadline : ℕ) (rs : List Round) (m : LeaseManager)
    → IsAdmitted m
    → IsAdmitted (poll d deadline rs m).1
unfolding poll
poll-IsAdmitted d deadline [] m a = a
poll-IsAdmitted d deadline (r ∷ rs) m a =
    let (granted, m') = try_acquire d r.now r.stored r.fresh m in
    let a' = try_acquire-IsAdmitted d r.now r.stored r.fresh m a in
    elim (Option-cases granted) [
      | inr (k, got) ↦ rw got a'
      | inl nothing ↦ elim (Bool-cases (leb deadline r.checked)) [
        | inl late ↦ rw (nothing, late) a'
        | inr early ↦
            rw (nothing, early)
              (poll-IsAdmitted d deadline rs (run r.others m') (run-IsAdmitted r.others m' a'))
      ]
    ]

-- The wait keeps the limits, whatever the other tasks do between its rounds.
pub acquire-IsAdmitted :
    (d : Demand) (wait_ms start : ℕ) (rs : List Round) (m : LeaseManager)
    → IsAdmitted m
    → IsAdmitted (acquire d wait_ms start rs m).1
unfolding acquire
acquire-IsAdmitted d wait_ms start rs m a = poll-IsAdmitted d (start + ms wait_ms) rs m a

-- No call changes the budget.
try_acquire-cpu_budget :
    (d : Demand) (now stored : ℕ) (fresh : String) (m : LeaseManager)
    → (try_acquire d now stored fresh m).1.cpu_budget_mcpu ≡ m.cpu_budget_mcpu
unfolding try_acquire
try_acquire-cpu_budget d now stored fresh m = ground arith

step-cpu_budget : (op : Op) (m : LeaseManager) → (step op m).cpu_budget_mcpu ≡ m.cpu_budget_mcpu
unfolding step release active_count active_mcpu bind_execution renew release_execution
    release_runtime
step-cpu_budget (acquire_round d now stored fresh) m = try_acquire-cpu_budget d now stored fresh m
step-cpu_budget (release_lease none owner) m = refl
step-cpu_budget (release_lease (some k) owner) m = ground arith
step-cpu_budget (bind now none e owner) m = refl
step-cpu_budget (bind now (some k) e owner) m = ground arith
step-cpu_budget (renew_lease now none) m = refl
step-cpu_budget (renew_lease now (some k)) m = ground arith
step-cpu_budget _ m = refl

run-cpu_budget :
    (ops : List Op) (m : LeaseManager) → (run ops m).cpu_budget_mcpu ≡ m.cpu_budget_mcpu
unfolding run
run-cpu_budget [] m = refl
run-cpu_budget (op ∷ ops) m = run-cpu_budget ops (step op m) ∙ step-cpu_budget op m

-- The lease that a caller waited for.
pub record IsGrant (d : Demand) (budget : Option ℕ) (k : String) (l : Lease) : Type 0 where
  pub own_id : l.lease_id ≡ k
  pub own_class : l.resource_class ≡ d.resource_class
  pub own_owner : l.owner ≡ d.owner
  pub own_demand : l.demand_mcpu ≡ clamp_demand budget d.demand_mcpu
  pub own_execution : l.execution_id ≡ none

try_acquire-IsGrant :
    (d : Demand) (now stored : ℕ) (fresh k : String) (m : LeaseManager)
    → (try_acquire d now stored fresh m).0 ≡ some k
    → (l : Lease) × (get string_discrete k (try_acquire d now stored fresh m).1.leases ≡ some l)
      × IsGrant d m.cpu_budget_mcpu k l
unfolding try_acquire
try_acquire-IsGrant d now stored fresh k m got = (
  new_lease d stored k m,
  ground
      (arith, got, get-put_self string_discrete k (new_lease d stored k m) (expire now m).leases),
  record {
    own_id = refl;
    own_class = refl;
    own_owner = refl;
    own_demand = refl;
    own_execution = refl;
  },
)

poll-IsGrant :
    (d : Demand) (deadline : ℕ) (rs : List Round) (m : LeaseManager) (k : String)
    → (poll d deadline rs m).0 ≡ acquired k
    → (l : Lease) × (get string_discrete k (poll d deadline rs m).1.leases ≡ some l)
      × IsGrant d m.cpu_budget_mcpu k l
unfolding poll
poll-IsGrant d deadline [] m k h = absurd (ground arith)
poll-IsGrant d deadline (r ∷ rs) m k h =
    let (granted, m') = try_acquire d r.now r.stored r.fresh m in
    elim (Option-cases granted) [
      | inr (j, got) ↦
          let same : j ≡ k = ground (arith, got, h) in
          rw got (try_acquire-IsGrant d r.now r.stored r.fresh k m (got ∙ ap some same))
      | inl nothing ↦ elim (Bool-cases (leb deadline r.checked)) [
        | inl late ↦ absurd (ground (arith, nothing, late, h))
        | inr early ↦
            let (l, found, own) =
              poll-IsGrant d deadline rs (run r.others m') k (ground (arith, nothing, early, h)) in
            rw (nothing, early)
              (
                l,
                found,
                subst (λ b. IsGrant d b k l)
                    (run-cpu_budget r.others m' ∙ try_acquire-cpu_budget d r.now r.stored r.fresh m)
                    own,
              )
      ]
    ]

-- A caller that gets an identifier has a lease of its own under it when `acquire` returns: its class
-- and owner, its demand clamped by the budget at the time of the call, and no execution.
pub acquire-IsGrant :
    (d : Demand) (wait_ms start : ℕ) (rs : List Round) (m : LeaseManager) (k : String)
    → (acquire d wait_ms start rs m).0 ≡ acquired k
    → (l : Lease) × (get string_discrete k (acquire d wait_ms start rs m).1.leases ≡ some l)
      × IsGrant d m.cpu_budget_mcpu k l
unfolding acquire
acquire-IsGrant d wait_ms start rs m k h = poll-IsGrant d (start + ms wait_ms) rs m k h
