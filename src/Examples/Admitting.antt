-- ===== src/Examples/Admitting.antt =====
-- Leases on a manager of two leases and four cores.
use claw_tune.Base.{
  ◌+◌, String, ◌≡◌, refl, inr, true, false, not, ◌&&◌, none, some, List, [], ◌∷◌, length, arith,
  string_discrete, option_discrete,
}
use claw_tune.Dict.{get, put, pop, pop_all, matching, sum_values, IsUnique}
use claw_tune.Identity.{OwnerKey, same}
use claw_tune.Admission.Leases.{
  LeaseManager, Lease, Demand, never, new_manager, clamp_demand, expire, try_acquire, release,
  release_runtime, bind_execution, owner_satisfies,
}
use claw_tune.Admission.Leases.Ops.{
  Op, acquire_round, bind, release_lease, count_leases, end_runtime, step, run, IsAdmitted,
}
use claw_tune.Admission.Leases.Capacity.{run-within_limits}
use claw_tune.Admission.Leases.Oversized.{try_acquire_alone, try_acquire_exclusive}
use claw_tune.Admission.Leases.Release.{IsRelease, AfterEnd, release_exact, release_runtime-exact}
use claw_tune.Admission.Leases.Bound.{run-keeps_bound}

abbrev pub alice : OwnerKey
alice = record { gateway = some "g"; runtime = some "r"; agent = none; session = none; run = none }

abbrev pub bob : OwnerKey
bob = record { gateway = some "g"; runtime = some "q"; agent = none; session = none; run = none }

abbrev pub two_cores : Demand
two_cores = record { resource_class = "cpu"; demand_mcpu = 2000; owner = some alice }

abbrev pub huge : Demand
huge = record { resource_class = "cpu"; demand_mcpu = 64000; owner = some bob }

abbrev pub empty : LeaseManager
empty = new_manager 2 1000 (some 4000)

abbrev pub calls : List Op
calls =
    acquire_round two_cores 0 10 "a"
    ∷ bind 20 (some "a") "e" (some alice)
    ∷ acquire_round huge 30 30 "b"
    ∷ release_lease (some "a") (some bob)
    ∷ count_leases 9000000
    ∷ []

-- A lease that is bound, one that waits for its execution, and one that fills the budget.
abbrev pub bound_lease : Lease
bound_lease = record {
  lease_id = "a";
  resource_class = "cpu";
  demand_mcpu = 2000;
  owner = some alice;
  execution_id = some "e";
  expires_at = never;
}

abbrev pub busy : LeaseManager
busy = record empty { leases = ("a", bound_lease) ∷ [] }

abbrev pub whole_lease : Lease
whole_lease = record bound_lease { demand_mcpu = 4000 }

abbrev pub full : LeaseManager
full = record empty { leases = ("a", whole_lease) ∷ [] }

program : Unit {0}
unfolding get put pop pop_all matching sum_values string_discrete option_discrete same expire
    clamp_demand try_acquire release release_runtime bind_execution owner_satisfies step run
program = tt

run-within_limits_example : IsAdmitted (run calls (new_manager 2 1000 (some 4000)))
run-within_limits_example = run-within_limits 2 1000 (some 4000) calls

busy-IsUnique : IsUnique string_discrete busy.leases
unfolding program
busy-IsUnique = (refl, tt)

busy-run :
    run
      (acquire_round two_cores 0 10 "a" ∷ bind 20 (some "a") "e" (some alice) ∷ [])
      (new_manager 2 1000 (some 4000))
    ≡ busy
unfolding program
busy-run = refl

busy-IsAdmitted : IsAdmitted busy
busy-IsAdmitted = rw (← busy-run) (
    run-within_limits 2 1000 (some 4000)
      (acquire_round two_cores 0 10 "a" ∷ bind 20 (some "a") "e" (some alice) ∷ []))

there : get string_discrete "a" busy.leases ≡ some bound_lease
unfolding program
there = refl

bob_refused : not (owner_satisfies (some alice) bob) ≡ true
unfolding program
bob_refused = refl

alice_allowed : not (owner_satisfies (some alice) alice) ≡ false
unfolding program
alice_allowed = refl

all_refused :
    (l : Lease)
    → get string_discrete "a" busy.leases ≡ some l
    → not (owner_satisfies l.owner bob) ≡ true
unfolding program
all_refused l h = rw (← some-inj h)
  where
    some-inj : {a b : Lease} → some a ≡ some b → a ≡ b
    some-inj e = cc

none_left : length (expire 40 empty).leases ≡ 0
unfolding program
none_left = refl

still_there : get string_discrete "a" (expire 40 full).leases ≡ some whole_lease
unfolding program
still_there = refl

elsewhere : (same (some "g") (some "g") && same (some "r") (some "q")) ≡ false
unfolding program
elsewhere = refl

run-keeps_bound_example :
    get string_discrete "a"
      (run
        (release_lease (some "a") (some bob)
          ∷ count_leases 9000000
          ∷ end_runtime "q" (some "g")
          ∷ [])
        busy).leases
    ≡ some bound_lease
run-keeps_bound_example =
    run-keeps_bound "a" bound_lease "e"
      (release_lease (some "a") (some bob) ∷ count_leases 9000000 ∷ end_runtime "q" (some "g") ∷ [])
      busy busy-IsAdmitted there refl (inr bob_refused, (tt, (elsewhere, tt)))

try_acquire_alone_example : (try_acquire huge 40 40 "b" empty).0 ≡ some "b"
try_acquire_alone_example = try_acquire_alone huge 40 40 "b" empty tt (ground arith) none_left

try_acquire_exclusive_example : (try_acquire two_cores 40 40 "b" full).0 ≡ none
try_acquire_exclusive_example =
    try_acquire_exclusive two_cores 40 40 "b" full "a" whole_lease 4000 busy-IsUnique refl
      (ground arith) still_there (ground arith)

release_exact_example :
    IsRelease "a"
      (some bob)
      busy
      (release (some "a") (some bob) busy).0
      (release (some "a") (some bob) busy).1
release_exact_example = release_exact "a" (some bob) busy busy-IsUnique

release_runtime-exact_example :
    ((release_runtime "r" (some "g") busy).0 + length (release_runtime "r" (some "g") busy).1.leases
      ≡ length busy.leases)
    × ((j : String)
        → AfterEnd "r"
            (some "g")
            (get string_discrete j busy.leases)
            (get string_discrete j (release_runtime "r" (some "g") busy).1.leases))
release_runtime-exact_example = release_runtime-exact "r" (some "g") busy busy-IsUnique
