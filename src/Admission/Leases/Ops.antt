-- ===== src/Admission/Leases/Ops.antt =====
-- The methods of `LeaseManager` as the steps of one machine, the loop of `acquire` among the steps
-- of the other tasks, and the invariant.
use claw_tune.Base.{
  ℕ, ◌+◌, ◌≤◌, ◌≡◌, ◌⊎◌, Bool, Option, none, some, String, List, [], ◌∷◌, length, leb,
  if◌then◌else◌, string_discrete,
}
use claw_tune.Dict.{IsUnique, Each}
use claw_tune.Identity.{OwnerKey}
use claw_tune.Admission.Leases.{
  LeaseManager, Lease, Demand, never, used_mcpu, ms, try_acquire, release, active_count,
  active_mcpu, bind_execution, renew, release_execution, release_runtime,
}

-- One call of a method with its arguments and the readings that it makes.
pub data Op : Type 0 where
  acquire_round : Demand → (now stored : ℕ) → (fresh : String) → Op
  release_lease : Option String → Option OwnerKey → Op
  count_leases : (now : ℕ) → Op
  sum_demand : (now : ℕ) → Op
  bind : (now : ℕ) → Option String → (execution_id : String) → Option OwnerKey → Op
  renew_lease : (now : ℕ) → Option String → Op
  end_execution : (execution_id : String) → Op
  end_runtime : (runtime_id : String) → Option String → Op

unfoldable pub step : Op → LeaseManager → LeaseManager
step (acquire_round d now stored fresh) m = (try_acquire d now stored fresh m).1
step (release_lease lease_id owner) m = (release lease_id owner m).1
step (count_leases now) m = (active_count now m).1
step (sum_demand now) m = (active_mcpu now m).1
step (bind now lease_id execution_id owner) m = (bind_execution now lease_id execution_id owner m).1
step (renew_lease now lease_id) m = (renew now lease_id m).1
step (end_execution execution_id) m = (release_execution execution_id m).1
step (end_runtime runtime_id gateway_id) m = (release_runtime runtime_id gateway_id m).1

unfoldable pub run : List Op → LeaseManager → LeaseManager
run [] m = m
run (op ∷ ops) m = run ops (step op m)

-- One turn of the `while True` of `acquire`: the readings of the locked block, the identifier that
-- it would use, the reading of the deadline test, and what other tasks do during the sleep.
pub record Round : Type 0 where
  pub now : ℕ
  pub stored : ℕ
  pub fresh : String
  pub checked : ℕ
  pub others : List Op

-- `pending`: the rounds that are given are over, and the loop is not.
pub data Outcome : Type 0 where
  acquired : String → Outcome
  timed_out pending : Outcome

-- How a round ends: with a lease, by the deadline, or by going on.
abbrev pub settle :
    Option String → Bool → LeaseManager → Outcome × LeaseManager → Outcome × LeaseManager
settle (some lease_id) late m rest = (acquired lease_id, m)
settle none late m rest = if late then (timed_out, m) else rest

-- The loop, with the deadline computed.
unfoldable pub poll : Demand → ℕ → List Round → LeaseManager → Outcome × LeaseManager
poll d deadline [] m = (pending, m)
poll d deadline (r ∷ rs) m =
    let (granted, m') = try_acquire d r.now r.stored r.fresh m in
    let rest = poll d deadline rs (run r.others m') in
    settle granted (leb deadline r.checked) m' rest

-- `acquire`, called at the reading `start`.
unfoldable pub acquire : Demand → ℕ → ℕ → List Round → LeaseManager → Outcome × LeaseManager
acquire d wait_ms start = poll d (start + ms wait_ms)

abbrev pub Within : Option ℕ → ℕ → Type 0
Within none total = Unit
Within (some budget) total = total ≤ budget

-- The limits hold, a key names its own lease, and a lease with an execution has no deadline.
pub record IsAdmitted (m : LeaseManager) : Type 0 where
  pub unique : IsUnique string_discrete m.leases
  pub bounded : length m.leases ≤ m.max_global
  pub within : Within m.cpu_budget_mcpu (used_mcpu m)
  pub named : Each string_discrete (λ k (l : Lease). l.lease_id ≡ k) m.leases
  pub held :
      Each string_discrete
        (λ k (l : Lease). (l.execution_id ≡ none) ⊎ (l.expires_at ≡ never))
        m.leases
