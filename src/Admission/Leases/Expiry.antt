-- ===== src/Admission/Leases/Expiry.antt =====
-- What expiry removes, and when `acquire` grants a lease.
use mathlib.Core.Logic.{ite}
use claw_tune.Base.{
  ap, ◌∙◌, ℕ, ◌+◌, ◌<◌, ◌≡◌, refl, ◌∙◌, true, false, not, ◌&&◌, none, some, String, length, arith,
  string_discrete, ltb,
}
use claw_tune.Dict.{get, keep, IsUnique}
use claw_tune.Dict.Laws.{get-put}
use claw_tune.Dict.Keep.{pop_all-matching, get-keep, only}
use claw_tune.Admission.Leases.{
  LeaseManager, Demand, new_lease, used_mcpu, expire, is_expired, clamp_demand, fits_budget,
  try_acquire,
}

expire-keep :
    (now : ℕ) (m : LeaseManager)
    → IsUnique string_discrete m.leases
    → (expire now m).leases ≡ keep (λ l. not (is_expired now l)) m.leases
unfolding expire
expire-keep now m u = pop_all-matching string_discrete (is_expired now) m.leases u

-- A lookup after expiry: an expired lease is gone, any other is what it was.
pub get-expire :
    (now : ℕ) (k : String) (m : LeaseManager)
    → IsUnique string_discrete m.leases
    → get string_discrete k (expire now m).leases
      ≡ only (λ l. not (is_expired now l)) (get string_discrete k m.leases)
get-expire now k m u =
    rw (expire-keep now m u) (get-keep string_discrete (λ l. not (is_expired now l)) k m.leases u)

-- There is room after expiry.
abbrev pub HasRoom : Demand → ℕ → LeaseManager → Type 0
HasRoom d now m =
    (length (expire now m).leases < m.max_global)
    × (fits_budget m.cpu_budget_mcpu
          (used_mcpu (expire now m) + clamp_demand m.cpu_budget_mcpu d.demand_mcpu)
        ≡ true)

expire-max_global : (now : ℕ) (m : LeaseManager) → (expire now m).max_global ≡ m.max_global
unfolding expire
expire-max_global now m = refl

expire-budget : (now : ℕ) (m : LeaseManager) → (expire now m).cpu_budget_mcpu ≡ m.cpu_budget_mcpu
unfolding expire
expire-budget now m = refl

module _ (d : Demand) (now stored : ℕ) (fresh : String) (m : LeaseManager) where
  room_test :
      HasRoom d now m
      → (ltb (length (expire now m).leases) (expire now m).max_global
          && fits_budget
              (expire now m).cpu_budget_mcpu
              (used_mcpu (expire now m) + clamp_demand m.cpu_budget_mcpu d.demand_mcpu))
        ≡ true
  room_test (room, fits) = ground (arith, room, fits, expire-max_global now m, expire-budget now m)

  -- On a manager without two leases of one identifier, a round of `acquire` with room after expiry
  -- grants the lease and stores it; at every other identifier is what expiry leaves.
  pub try_acquire-grants :
      IsUnique string_discrete m.leases
      → HasRoom d now m
      → ((try_acquire d now stored fresh m).0 ≡ some fresh)
        × ((j : String)
            → get string_discrete j (try_acquire d now stored fresh m).1.leases
              ≡ ite
                  (string_discrete fresh j)
                  (some (new_lease d stored fresh m))
                  (only (λ l. not (is_expired now l)) (get string_discrete j m.leases)))
  unfolding try_acquire
  try_acquire-grants u room =
      let ok = room_test room in
      (
        rw ok,
        λ j. rw ok (
            get-put string_discrete j fresh _ (expire now m).leases
            ∙ ap (ite (string_discrete fresh j) (some (new_lease d stored fresh m)))
                (get-expire now j m u)),
      )

  -- On such a manager, a round without room grants nothing, and only expiry happens.
  pub try_acquire-refuses :
      IsUnique string_discrete m.leases
      → ¬ HasRoom d now m
      → ((try_acquire d now stored fresh m).0 ≡ none)
        × ((j : String)
            → get string_discrete j (try_acquire d now stored fresh m).1.leases
              ≡ only (λ l. not (is_expired now l)) (get string_discrete j m.leases))
  unfolding try_acquire
  try_acquire-refuses u full =
      let bad = no_room full in (rw bad, λ j. rw bad (get-expire now j m u))
    where
      no_room :
          ¬ HasRoom d now m
          → (ltb (length (expire now m).leases) (expire now m).max_global
              && fits_budget
                  (expire now m).cpu_budget_mcpu
                  (used_mcpu (expire now m) + clamp_demand m.cpu_budget_mcpu d.demand_mcpu))
            ≡ false
      no_room h = ground (arith, h, expire-max_global now m, expire-budget now m)
