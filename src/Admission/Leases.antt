-- ===== src/Admission/Leases.antt =====
-- services/sidecar/src/clawtune_sidecar/admission/leases.py: `LeaseManager`. Each method holds the
-- lock of the manager from its first read to its last write, so a method is one step on the state.
-- Clock readings are arguments, one for each `time.monotonic()`, in microseconds; `uuid.uuid4()` is
-- an argument too.
pub mod Ops
pub mod Expiry
pub mod Capacity
pub mod Oversized
pub mod Release
pub mod Bound
pub mod Waiting
use claw_tune.Base.{
  ℕ, ◌+◌, ◌*◌, min, max, Bool, true, false, not, ◌&&◌, ◌||◌, Option, none, some, String, List, [],
  ◌∷◌, length, is_none, leb, ltb, is_yes, if◌then◌else◌, string_discrete,
}
use claw_tune.Dict.{Dict, get, put, pop, pop_all, matching, sum_values}
use claw_tune.Identity.{OwnerKey, same}

-- `expires_at`, a reading of the clock or `float("inf")`.
pub data Deadline : Type 0 where
  at : ℕ → Deadline
  never : Deadline

pub record Lease : Type 0 where
  pub lease_id : String
  pub resource_class : String
  pub demand_mcpu : ℕ
  pub owner : Option OwnerKey
  pub execution_id : Option String
  pub expires_at : Deadline

pub record LeaseManager : Type 0 where
  pub max_global : ℕ
  pub ttl_ms : ℕ
  pub cpu_budget_mcpu : Option ℕ
  pub leases : Dict String Lease

-- `__init__`
abbrev pub new_manager : ℕ → ℕ → Option ℕ → LeaseManager
new_manager max_global ttl_ms budget = record {
  max_global = max_global;
  ttl_ms = ttl_ms;
  cpu_budget_mcpu = budget;
  leases = [];
}

-- Milliseconds on the clock's scale.
abbrev pub ms : ℕ → ℕ
ms n = n * 1000

-- `expires_at <= now`
abbrev pub is_due : Deadline → ℕ → Bool
is_due (at t) now = leb t now
is_due never now = false

abbrev pub is_expired : ℕ → Lease → Bool
is_expired now lease = is_none lease.execution_id && is_due lease.expires_at now

-- `_expire_locked`
unfoldable pub expire : ℕ → LeaseManager → LeaseManager
expire now m = record m {
  leases = pop_all string_discrete (matching (is_expired now) m.leases) m.leases;
}

-- `_used_mcpu_locked`
abbrev pub used_mcpu : LeaseManager → ℕ
used_mcpu m = sum_values (λ lease. lease.demand_mcpu) m.leases

-- `left is None or left == right`
abbrev pub covers : Option String → Option String → Bool
covers left right = is_none left || same left right

-- `_owner_satisfies`
unfoldable pub owner_satisfies : Option OwnerKey → OwnerKey → Bool
owner_satisfies none actual = true
owner_satisfies (some expected) actual =
    covers expected.gateway actual.gateway
    && (covers expected.runtime actual.runtime
        && (covers expected.agent actual.agent
            && (covers expected.session actual.session && covers expected.run actual.run)))

-- `owner is not None and not _owner_satisfies(lease.owner, owner)`
abbrev pub is_refused : Option OwnerKey → Lease → Bool
is_refused none lease = false
is_refused (some owner) lease = not (owner_satisfies lease.owner owner)

-- The first lines of `acquire`: at least one millicore, at most the whole budget.
unfoldable pub clamp_demand : Option ℕ → ℕ → ℕ
clamp_demand none demand = max 1 demand
clamp_demand (some budget) demand = min (max 1 demand) budget

-- `budget_available`
abbrev pub fits_budget : Option ℕ → ℕ → Bool
fits_budget none total = true
fits_budget (some budget) total = leb total budget

-- What `acquire` is called with.
pub record Demand : Type 0 where
  pub resource_class : String
  pub demand_mcpu : ℕ
  pub owner : Option OwnerKey

-- The lease that `acquire` stores.
abbrev pub new_lease : Demand → ℕ → String → LeaseManager → Lease
new_lease d stored fresh m = record {
  lease_id = fresh;
  resource_class = d.resource_class;
  demand_mcpu = clamp_demand m.cpu_budget_mcpu d.demand_mcpu;
  owner = d.owner;
  execution_id = none;
  expires_at = at (stored + ms m.ttl_ms);
}

-- One round of the loop of `acquire`, under the lock: expire, test, and store a new lease. `now` and
-- `stored` are the two readings of the clock, `fresh` the new identifier.
unfoldable pub try_acquire : Demand → ℕ → ℕ → String → LeaseManager → Option String × LeaseManager
unfolding expire
try_acquire d now stored fresh m =
    let m' = expire now m in
    let lease = new_lease d stored fresh m in
    if ltb (length m'.leases) m'.max_global
      && fits_budget m'.cpu_budget_mcpu (used_mcpu m' + lease.demand_mcpu)
    then (some fresh, record m' { leases = put string_discrete fresh lease m'.leases })
    else (none, m')

unfoldable pub release : Option String → Option OwnerKey → LeaseManager → Bool × LeaseManager
release none owner m = (false, m)
release (some lease_id) owner m = elim (get string_discrete lease_id m.leases) [
  | none ↦ (false, m)
  | some lease ↦
      if is_refused owner lease
      then (false, m)
      else (true, record m { leases = pop string_discrete lease_id m.leases })
]

unfoldable pub active_count : ℕ → LeaseManager → ℕ × LeaseManager
unfolding expire
active_count now m = let m' = expire now m in (length m'.leases, m')

unfoldable pub active_mcpu : ℕ → LeaseManager → ℕ × LeaseManager
unfolding expire
active_mcpu now m = let m' = expire now m in (used_mcpu m', m')

-- `lease.execution_id not in {None, execution_id}`
abbrev pub is_bound_to_other : String → Lease → Bool
is_bound_to_other execution_id lease =
    not (is_none lease.execution_id || same lease.execution_id (some execution_id))

unfoldable pub bind_execution :
    ℕ → Option String → String → Option OwnerKey → LeaseManager → Bool × LeaseManager
unfolding expire
bind_execution now none execution_id owner m = (false, m)
bind_execution now (some lease_id) execution_id owner m =
    let m' = expire now m in
    elim (get string_discrete lease_id m'.leases) [
      | none ↦ (false, m')
      | some lease ↦
          if is_refused owner lease || is_bound_to_other execution_id lease then (false, m') else (
            true,
            record m' {
              leases =
                  put string_discrete lease_id
                    (record lease { execution_id = some execution_id; expires_at = never })
                    m'.leases;
            },
          )
    ]

unfoldable pub renew : ℕ → Option String → LeaseManager → Bool × LeaseManager
renew now none m = (false, m)
renew now (some lease_id) m = elim (get string_discrete lease_id m.leases) [
  | none ↦ (false, m)
  | some lease ↦
      if is_none lease.execution_id
      then (
        true,
        record m {
          leases =
              put string_discrete lease_id (record lease { expires_at = at (now + ms m.ttl_ms) })
                m.leases;
        },
      )
      else (true, m)
]

-- Pops each lease that passes the test, and counts them.
abbrev pub pop_matching : (Lease → Bool) → LeaseManager → ℕ × LeaseManager
pop_matching p m =
    let matches = matching p m.leases in
    (length matches, record m { leases = pop_all string_discrete matches m.leases })

unfoldable pub release_execution : String → LeaseManager → ℕ × LeaseManager
release_execution execution_id = pop_matching (λ lease. same lease.execution_id (some execution_id))

-- The owner is exactly this pair of gateway and runtime.
abbrev pub is_owned_by : String → Option String → Lease → Bool
is_owned_by runtime_id gateway_id lease = elim lease.owner [
  | none ↦ false
  | some owner ↦ same owner.gateway gateway_id && same owner.runtime (some runtime_id)
]

unfoldable pub release_runtime : String → Option String → LeaseManager → ℕ × LeaseManager
release_runtime runtime_id gateway_id = pop_matching (is_owned_by runtime_id gateway_id)
