-- ===== src/Admission/Leases/Bound.antt =====
-- A lease that is bound to an execution, along a sequence of calls.
use claw_tune.Base.{
  ℕ, ◌≡◌, ◌≢◌, ap, ◌∙◌, Bool, true, false, not, ◌||◌, ◌⊎◌, inl, inr, Option, none, some, String,
  List, [], ◌∷◌, All, arith, string_discrete, Bool-cases, Option-cases, if◌then◌else◌,
}
use claw_tune.Dict.{Dict, get, put, IsUnique}
use claw_tune.Dict.Laws.{get-put_self, get-put_ne, get-pop_ne}
use claw_tune.Dict.Keep.{pop_all-matching, get-keep}
use claw_tune.Identity.{OwnerKey, same}
use claw_tune.Identity.Owners.{same_iff}
use claw_tune.Admission.Leases.{
  LeaseManager, Lease, Demand, never, expire, is_expired, try_acquire, release, active_count,
  active_mcpu, bind_execution, renew, release_execution, release_runtime, is_refused, is_owned_by,
  is_bound_to_other, pop_matching, new_lease,
}
use claw_tune.Admission.Leases.Ops.{
  Op, acquire_round, release_lease, count_leases, sum_demand, bind, renew_lease, end_execution,
  end_runtime, step, run, IsAdmitted,
}
use claw_tune.Admission.Leases.Capacity.{step-IsAdmitted}
use claw_tune.Admission.Leases.Expiry.{get-expire}

module _ (k : String) (l : Lease) (e : String) where
  -- The lease stands in the manager.
  abbrev Holds : LeaseManager → Type 0
  Holds m = get string_discrete k m.leases ≡ some l

  -- A call that does not end the lease: no new lease takes its identifier, and no release names it
  -- (a release by identifier under another owner is allowed).
  abbrev pub Spares : Op → Type 0
  Spares (acquire_round d now stored fresh) = fresh ≢ k
  Spares (release_lease none owner) = Unit
  Spares (release_lease (some j) owner) = (j ≢ k) ⊎ (is_refused owner l ≡ true)
  Spares (end_execution other) = same l.execution_id (some other) ≡ false
  Spares (end_runtime r g) = is_owned_by r g l ≡ false
  Spares _ = Unit

  module _ (bound : l.execution_id ≡ some e) (kept : l.expires_at ≡ never) where
    expire-Holds : (now : ℕ) (m : LeaseManager) → IsAdmitted m → Holds m → Holds (expire now m)
    expire-Holds now m a h =
        get-expire now k m a.unique ∙ rw h (alive (is_expired now l) (ground arith))
      where
        alive : (b : Bool) → b ≡ false → (if not b then some l else none) ≡ some l
        alive b q = rw q

    put-Holds :
        (j : String) (v : Lease) (d : Dict String Lease)
        → get string_discrete k d ≡ some l
        → (j ≡ k → v ≡ l)
        → get string_discrete k (put string_discrete j v d) ≡ some l
    put-Holds j v d h q = elim (string_discrete j k) [
      | yes p ↦ rw p (get-put_self string_discrete k v d ∙ ap some (q p))
      | no n ↦ get-put_ne string_discrete v d n ∙ h
    ]

    pop_matching-Holds :
        (p : Lease → Bool) (m : LeaseManager)
        → IsUnique string_discrete m.leases
        → p l ≡ false
        → Holds m
        → Holds (pop_matching p m).1
    pop_matching-Holds p m u spared h =
        rw (pop_all-matching string_discrete p m.leases u)
          (get-keep string_discrete (λ v. not (p v)) k m.leases u ∙ rw (h, spared))

    acquire-Holds :
        (d : Demand) (now stored : ℕ) (fresh : String) (m : LeaseManager)
        → IsAdmitted m
        → fresh ≢ k
        → Holds m
        → Holds (try_acquire d now stored fresh m).1
    unfolding try_acquire
    acquire-Holds d now stored fresh m a other h =
        let m' = expire now m in
        let stays = expire-Holds now m a h in
        ground (
          arith,
          stays,
          put-Holds fresh (new_lease d stored fresh m) m'.leases stays (λ p. absurd (other p)),
        )

    release-Holds :
        (j : Option String) (owner : Option OwnerKey) (m : LeaseManager)
        → Spares (release_lease j owner)
        → Holds m
        → Holds (release j owner m).1
    unfolding release
    release-Holds none owner m s h = h
    release-Holds (some j) owner m (inl other) h =
        ground (arith, h, get-pop_ne string_discrete k j m.leases other)
    release-Holds (some j) owner m (inr foreign) h = elim (string_discrete j k) [
      | yes p ↦ ground (arith, p, h, foreign)
      | no n ↦ ground (arith, h, get-pop_ne string_discrete k j m.leases n)
    ]

    found_same :
        (j : String) (v : Lease) (d : Dict String Lease)
        → j ≡ k
        → get string_discrete j d ≡ some v
        → get string_discrete k d ≡ some l
        → v ≡ l
    found_same j v d p found h = ground arith

    free_not_bound : (v : Lease) → v ≡ l → v.execution_id ≡ none → ⊥
    free_not_bound v p free = ground arith

    rebind :
        (owner : Option OwnerKey) (e' : String) (v : Lease)
        → v ≡ l
        → (is_refused owner v || is_bound_to_other e' v) ≡ false
        → record v { execution_id = some e'; expires_at = never } ≡ l
    rebind owner e' v p good =
        ground (arith, p, same_iff v.execution_id (some e'), good, bound, kept)

    bind-Holds :
        (now : ℕ) (j : Option String) (e' : String) (owner : Option OwnerKey) (m : LeaseManager)
        → IsAdmitted m
        → Holds m
        → Holds (bind_execution now j e' owner m).1
    unfolding bind_execution
    bind-Holds now none e' owner m a h = h
    bind-Holds now (some j) e' owner m a h =
        let m' = expire now m in
        let stays = expire-Holds now m a h in
        elim (Option-cases (get string_discrete j m'.leases)) [
          | inl absent ↦ rw (absent, bind_execution) stays
          | inr (v, found) ↦ elim (Bool-cases (is_refused owner v || is_bound_to_other e' v)) [
            | inl bad ↦ rw (found, bind_execution, bad) stays
            | inr good ↦
                rw (found, bind_execution, good)
                  (put-Holds j _ m'.leases stays
                    (λ p. rebind owner e' v (found_same j v m'.leases p found stays) good))
          ]
        ]

    renew-Holds :
        (now : ℕ) (j : Option String) (m : LeaseManager) → Holds m → Holds (renew now j m).1
    unfolding renew
    renew-Holds now none m h = h
    renew-Holds now (some j) m h = elim (Option-cases (get string_discrete j m.leases)) [
      | inl absent ↦ rw (absent, renew) h
      | inr (v, found) ↦ elim (Option-cases v.execution_id) [
        | inl free ↦
            rw (found, renew, free)
              (put-Holds j _ m.leases h
                (λ p. absurd (free_not_bound v (found_same j v m.leases p found h) free)))
        | inr (x, held) ↦ rw (found, renew, held) h
      ]
    ]

    -- One call that spares the lease.
    step-Holds :
        (op : Op) (m : LeaseManager) → IsAdmitted m → Spares op → Holds m → Holds (step op m)
    unfolding step active_count active_mcpu release_execution release_runtime
    step-Holds (acquire_round d now stored fresh) m a s h = acquire-Holds d now stored fresh m a s h
    step-Holds (release_lease j owner) m a s h = release-Holds j owner m s h
    step-Holds (count_leases now) m a s h = expire-Holds now m a h
    step-Holds (sum_demand now) m a s h = expire-Holds now m a h
    step-Holds (bind now j e' owner) m a s h = bind-Holds now j e' owner m a h
    step-Holds (renew_lease now j) m a s h = renew-Holds now j m h
    step-Holds (end_execution other) m a s h = pop_matching-Holds _ m a.unique s h
    step-Holds (end_runtime r g) m a s h = pop_matching-Holds (is_owned_by r g) m a.unique s h

    run-Holds :
        (ops : List Op) (m : LeaseManager)
        → IsAdmitted m
        → All Spares ops
        → Holds m
        → Holds (run ops m)
    unfolding run
    run-Holds [] m a s h = h
    run-Holds (op ∷ ops) m a s h =
        run-Holds ops (step op m) (step-IsAdmitted op m a) s.1 (step-Holds op m a s.0 h)

-- On a manager whose limits and deadlines are in order, a lease that is bound to an execution is
-- never expired: it is unchanged
-- after any sequence of calls, at any readings of the clock, that does not release it, end its
-- execution or its runtime, or store a new lease under its identifier.
pub run-keeps_bound :
    (k : String) (l : Lease) (e : String) (ops : List Op) (m : LeaseManager)
    → IsAdmitted m
    → get string_discrete k m.leases ≡ some l
    → l.execution_id ≡ some e
    → All (Spares k l e) ops
    → get string_discrete k (run ops m).leases ≡ some l
run-keeps_bound k l e ops m a h bound s =
    run-Holds k l e bound (no_deadline (a.held k l h)) ops m a s h
  where
    no_deadline : (l.execution_id ≡ none) ⊎ (l.expires_at ≡ never) → l.expires_at ≡ never
    no_deadline d = ground arith
