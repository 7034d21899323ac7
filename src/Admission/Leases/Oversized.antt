-- ===== src/Admission/Leases/Oversized.antt =====
-- A job that asks for the whole budget or more.
use claw_tune.Base.{
  ℕ, ◌+◌, ◌≤◌, ◌<◌, ◌≡◌, refl, true, Option, none, some, String, [], ◌∷◌, length, arith,
  string_discrete, le→leb,
}
use claw_tune.Dict.{Dict, get, sum_values, IsUnique}
use claw_tune.Dict.Laws.{value-le-sum}
use claw_tune.Admission.Leases.{
  LeaseManager, Lease, Demand, used_mcpu, expire, clamp_demand, fits_budget, try_acquire, new_lease,
}
use claw_tune.Admission.Leases.Expiry.{HasRoom, try_acquire-grants, try_acquire-refuses}

clamp-fits : (o : Option ℕ) (n : ℕ) → fits_budget o (0 + clamp_demand o n) ≡ true
unfolding clamp_demand
clamp-fits none n = refl
clamp-fits (some budget) n = le→leb _ _ (omega arith)

clamp-pos : (o : Option ℕ) (budget n : ℕ) → o ≡ some budget → 0 < budget → 0 < clamp_demand o n
unfolding clamp_demand
clamp-pos o budget n has h = ground arith

fits-le : (o : Option ℕ) (budget n : ℕ) → o ≡ some budget → fits_budget o n ≡ true → n ≤ budget
fits-le o budget n has h = ground arith

sum-empty : (d : Dict String Lease) → length d ≡ 0 → sum_values (λ (l : Lease). l.demand_mcpu) d ≡ 0
unfolding sum_values
sum-empty [] h = refl
sum-empty (x ∷ d) h = absurd (omega arith)

-- A manager without two leases of one identifier that has no lease left after expiry admits any
-- demand, however large, if it may hold a lease at all: no prediction locks a job out for ever.
pub try_acquire_alone :
    (d : Demand) (now stored : ℕ) (fresh : String) (m : LeaseManager)
    → IsUnique string_discrete m.leases
    → 0 < m.max_global
    → length (expire now m).leases ≡ 0
    → (try_acquire d now stored fresh m).0 ≡ some fresh
try_acquire_alone d now stored fresh m u room empty =
    (try_acquire-grants d now stored fresh m u (
      omega arith,
      rw (sum-empty (expire now m).leases empty) (clamp-fits m.cpu_budget_mcpu d.demand_mcpu),
    )).0

-- On a manager with a positive CPU budget and without two leases of one identifier, every demand is
-- refused while a lease that reserves the whole budget is there after expiry.
pub try_acquire_exclusive :
    (d : Demand) (now stored : ℕ) (fresh : String) (m : LeaseManager) (k : String) (l : Lease)
    (budget : ℕ)
    → IsUnique string_discrete m.leases
    → m.cpu_budget_mcpu ≡ some budget
    → 0 < budget
    → get string_discrete k (expire now m).leases ≡ some l
    → budget ≤ l.demand_mcpu
    → (try_acquire d now stored fresh m).0 ≡ none
try_acquire_exclusive d now stored fresh m k l budget u has pos found whole =
    (try_acquire-refuses d now stored fresh m u full).0
  where
    used : budget ≤ used_mcpu (expire now m)
    used = omega (
      arith,
      value-le-sum string_discrete (λ (l : Lease). l.demand_mcpu) k l (expire now m).leases found,
    )

    full : ¬ HasRoom d now m
    full (room, fits) = omega (
      arith,
      fits-le m.cpu_budget_mcpu budget _ has fits,
      used,
      clamp-pos m.cpu_budget_mcpu budget d.demand_mcpu has pos,
    )

-- A demand above the budget reserves exactly the budget.
pub new_lease_oversized :
    (d : Demand) (stored : ℕ) (fresh : String) (m : LeaseManager) (budget : ℕ)
    → m.cpu_budget_mcpu ≡ some budget
    → 0 < budget
    → budget ≤ d.demand_mcpu
    → (new_lease d stored fresh m).demand_mcpu ≡ budget
unfolding clamp_demand
new_lease_oversized d stored fresh m budget has pos large = rw has (omega arith)
