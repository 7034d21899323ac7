-- ===== src/Admission/Leases/Release.antt =====
-- What the releases remove.
use mathlib.Core.Logic.{ite}
use claw_tune.Base.{
  ◌+◌, ◌≡◌, ◌⊎◌, ◌↔◌, refl, Bool-cases, inl, inr, Bool, true, false, not, Option, none, some,
  String, length, arith, string_discrete, Option-cases,
}
use claw_tune.Dict.{get, IsUnique}
use claw_tune.Dict.Laws.{get-pop}
use claw_tune.Dict.Keep.{only, pop_all-matching, get-keep, length-matching}
use claw_tune.Identity.{OwnerKey}
use claw_tune.Identity.Owners.{same_iff}
use claw_tune.Admission.Leases.{
  LeaseManager, Lease, release, release_runtime, is_refused, is_owned_by, pop_matching, covers,
  owner_satisfies,
}

-- An entry that the lease does not ask for, or that the caller has.
abbrev pub Covers : Option String → Option String → Type 0
Covers left right = (left ≡ none) ⊎ (left ≡ right)

-- The caller has every entry that the owner of the lease asks for.
pub record Satisfies (expected actual : OwnerKey) : Type 0 where
  pub gateway : Covers expected.gateway actual.gateway
  pub runtime : Covers expected.runtime actual.runtime
  pub agent : Covers expected.agent actual.agent
  pub session : Covers expected.session actual.session
  pub run : Covers expected.run actual.run

-- A caller without an owner, or a lease without one, or an owner that satisfies that of the lease.
abbrev pub MayRelease : Option OwnerKey → Option OwnerKey → Type 0
MayRelease none of_lease = Unit
MayRelease (some actual) none = Unit
MayRelease (some actual) (some expected) = Satisfies expected actual

covers_iff : (a b : Option String) → (covers a b ≡ true) ↔ Covers a b
covers_iff none b = (λ h. inl refl, λ h. refl)
covers_iff (some x) b = (
  λ h. inr ((same_iff (some x) b).0 h),
  λ h. elim h [ inl e ↦ absurd cc | inr e ↦ (same_iff (some x) b).1 e ],
)

owner_satisfies_iff :
    (expected actual : OwnerKey)
    → (owner_satisfies (some expected) actual ≡ true) ↔ Satisfies expected actual
unfolding owner_satisfies
owner_satisfies_iff x y = (
  λ h. record {
    gateway = (covers_iff x.gateway y.gateway).0 (ground (arith, h));
    runtime = (covers_iff x.runtime y.runtime).0 (ground (arith, h));
    agent = (covers_iff x.agent y.agent).0 (ground (arith, h));
    session = (covers_iff x.session y.session).0 (ground (arith, h));
    run = (covers_iff x.run y.run).0 (ground (arith, h));
  },
  λ h.
      rw
        (
          (covers_iff x.gateway y.gateway).1 h.gateway,
          (covers_iff x.runtime y.runtime).1 h.runtime,
          (covers_iff x.agent y.agent).1 h.agent,
          (covers_iff x.session y.session).1 h.session,
          (covers_iff x.run y.run).1 h.run,
        )
        refl,
)

is_refused-MayRelease :
    (owner : Option OwnerKey) (l : Lease) → (is_refused owner l ≡ false) ↔ MayRelease owner l.owner
unfolding owner_satisfies
is_refused-MayRelease none l = (λ h. tt, λ h. refl)
is_refused-MayRelease (some actual) l = elim (Option-cases l.owner) [
  | inl e ↦ rw e (λ h. tt, λ h. refl)
  | inr (x, e) ↦ rw e (
    λ h. (owner_satisfies_iff x actual).0 (ground (arith, h)),
    λ h. ground (arith, (owner_satisfies_iff x actual).1 h),
  )
]

-- What a release answers, and the leases that it leaves: it removes the lease of the identifier, which
-- its caller may release, or there is no such lease and nothing changes.
pub data IsRelease (k : String) (owner : Option OwnerKey) (m : LeaseManager) (answer : Bool)
    (m' : LeaseManager) : Type 0 where
  released :
      (l : Lease)
      → get string_discrete k m.leases ≡ some l
      → MayRelease owner l.owner
      → answer ≡ true
      → ((j : String)
          → get string_discrete j m'.leases
            ≡ ite (string_discrete k j) none (get string_discrete j m.leases))
      → IsRelease k owner m answer m'
  unknown :
      get string_discrete k m.leases ≡ none
      → answer ≡ false
      → m' ≡ m
      → IsRelease k owner m answer m'
  foreign :
      (l : Lease)
      → get string_discrete k m.leases ≡ some l
      → ¬ MayRelease owner l.owner
      → answer ≡ false
      → m' ≡ m
      → IsRelease k owner m answer m'

-- On a manager without two leases of one identifier, `release` of an identifier removes its lease and no
-- other and answers true, if every entry of the owner of that lease is missing or is that of the
-- caller, or one of the two has no owner. Else, or if there is no such lease, it answers false and
-- changes nothing.
pub release_exact :
    (k : String) (owner : Option OwnerKey) (m : LeaseManager)
    → IsUnique string_discrete m.leases
    → IsRelease k owner m (release (some k) owner m).0 (release (some k) owner m).1
unfolding release
release_exact k owner m u = elim (Option-cases (get string_discrete k m.leases)) [
  | inl absent ↦ rw (release, absent) (unknown absent refl refl)
  | inr (l, found) ↦ elim (Bool-cases (is_refused owner l)) [
    | inl r ↦
        rw (release, found, r)
          (foreign l found (λ h. ground (arith, r, (is_refused-MayRelease owner l).1 h)) refl refl)
    | inr r ↦
        rw (release, found, r)
          (released l found ((is_refused-MayRelease owner l).0 r) refl
            (λ j. get-pop string_discrete j k m.leases u))
  ]
]

get-pop_matching :
    (p : Lease → Bool) (m : LeaseManager) (j : String)
    → IsUnique string_discrete m.leases
    → get string_discrete j (pop_matching p m).1.leases
      ≡ only (λ l. not (p l)) (get string_discrete j m.leases)
get-pop_matching p m j u =
    rw (pop_all-matching string_discrete p m.leases u)
      (get-keep string_discrete (λ l. not (p l)) j m.leases u)

count-pop_matching :
    (p : Lease → Bool) (m : LeaseManager)
    → IsUnique string_discrete m.leases
    → (pop_matching p m).0 + length (pop_matching p m).1.leases ≡ length m.leases
count-pop_matching p m u =
    rw (pop_all-matching string_discrete p m.leases u) (length-matching p m.leases)

-- The lease has an owner, with this gateway and this runtime.
abbrev pub IsOwnedBy : String → Option String → Lease → Type 0
IsOwnedBy runtime_id gateway_id l =
    (o : OwnerKey) × (l.owner ≡ some o) × (o.gateway ≡ gateway_id) × (o.runtime ≡ some runtime_id)

is_owned_by-IsOwnedBy :
    (r : String) (g : Option String) (l : Lease) → (is_owned_by r g l ≡ true) ↔ IsOwnedBy r g l
is_owned_by-IsOwnedBy r g l = elim (Option-cases l.owner) [
  | inl e ↦ (λ h. absurd (ground (arith, e, h)), λ (o, h, _, _). absurd (ground (arith, e, h)))
  | inr (x, e) ↦ (
    λ h. (
      x,
      e,
      (same_iff x.gateway g).0 (ground (arith, e, h)),
      (same_iff x.runtime (some r)).0 (ground (arith, e, h)),
    ),
    λ (o, h, of_gateway, of_runtime).
        let both : o ≡ x = ground (arith, e, h) in
        let a = (same_iff o.gateway g).1 of_gateway in
        let b = (same_iff o.runtime (some r)).1 of_runtime in rw (e, ← both, a, b),
  )
]

-- What the end of a runtime makes of the entry of an identifier.
pub data AfterEnd (runtime_id : String) (gateway_id : Option String) (before after : Option Lease)
    : Type 0 where
  absent : before ≡ none → after ≡ none → AfterEnd runtime_id gateway_id before after
  ended :
      (l : Lease)
      → before ≡ some l
      → IsOwnedBy runtime_id gateway_id l
      → after ≡ none
      → AfterEnd runtime_id gateway_id before after
  left :
      (l : Lease)
      → before ≡ some l
      → ¬ IsOwnedBy runtime_id gateway_id l
      → after ≡ some l
      → AfterEnd runtime_id gateway_id before after

only-AfterEnd :
    (r : String) (g : Option String) (o : Option Lease)
    → AfterEnd r g o (only (λ l. not (is_owned_by r g l)) o)
only-AfterEnd r g none = absent refl refl
only-AfterEnd r g (some l) = elim (Bool-cases (is_owned_by r g l)) [
  | inl own ↦ ended l refl ((is_owned_by-IsOwnedBy r g l).0 own) (ground (arith, own))
  | inr other ↦
      left l refl (λ h. ground (arith, other, (is_owned_by-IsOwnedBy r g l).1 h))
        (ground (arith, other))
]

-- On a manager without two leases of one identifier, the end of a runtime removes the leases that have
-- an owner with exactly that gateway, or none if none is given, and that runtime, returns how many it
-- removed, and leaves every other lease as it is.
pub release_runtime-exact :
    (runtime_id : String) (gateway_id : Option String) (m : LeaseManager)
    → IsUnique string_discrete m.leases
    → ((release_runtime runtime_id gateway_id m).0
          + length (release_runtime runtime_id gateway_id m).1.leases
        ≡ length m.leases)
      × ((j : String)
          → AfterEnd runtime_id gateway_id
              (get string_discrete j m.leases)
              (get string_discrete j (release_runtime runtime_id gateway_id m).1.leases))
unfolding release_runtime
release_runtime-exact r g m u = (
  count-pop_matching (is_owned_by r g) m u,
  λ j.
      rw (get-pop_matching (is_owned_by r g) m j u)
        (only-AfterEnd r g (get string_discrete j m.leases)),
)
