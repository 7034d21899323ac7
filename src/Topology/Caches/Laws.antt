-- ===== src/Topology/Caches/Laws.antt =====
-- The cache that is selected for a CPU.
use native.Mathlib.Decide.{ℕ_discrete}
use claw_tune.Base.{
  ℕ, ◌+◌, ◌*◌, ◌≤◌, ◌≡◌, ◌≢◌, ◌⊎◌, refl, ◌∙◌, Bool-cases, inl, inr, Bool, true, false, not, ◌&&◌,
  ◌||◌, Option, none, some, Option-cases, List, [], ◌∷◌, All, if◌then◌else◌, ltb, ◌==◌, arith,
}
use claw_tune.Dict.{Dict, get}
use claw_tune.Dict.Laws.{get-put_self, get-put_ne}
use claw_tune.Topology.Caches.{
  CacheFiles, Highest, candidate, is_higher, is_better, keep_higher, highest_from, highest_by_cpu,
}

-- A higher level is better, and at one level a unified cache.
abbrev pub rank : Highest → ℕ
rank h = 2 * h.level + (if h.is_unified then 1 else 0)

abbrev pub AtMost : Option Highest → Option Highest → Type 0
AtMost none r = Unit
AtMost (some h) none = ⊥
AtMost (some h) (some k) = rank h ≤ rank k

AtMost-refl : (o : Option Highest) → AtMost o o
AtMost-refl none = tt
AtMost-refl (some h) = omega arith

AtMost-trans : (a b c : Option Highest) → AtMost a b → AtMost b c → AtMost a c
AtMost-trans none b c h k = tt
AtMost-trans (some x) none c h k = absurd h
AtMost-trans (some x) (some y) none h k = absurd k
AtMost-trans (some x) (some y) (some z) h k = omega (arith, h, k)

is_higher-rank : (h p : Highest) → is_higher h p ≡ true → rank p ≤ rank h
is_higher-rank h p e = by_type h.is_unified p.is_unified e
  where
    by_type :
        (b c : Bool)
        → (ltb p.level h.level || (h.level == p.level && (b && not c))) ≡ true
        → 2 * p.level + (if c then 1 else 0) ≤ 2 * h.level + (if b then 1 else 0)
    by_type true true e = ground (arith, e)
    by_type true false e = ground (arith, e)
    by_type false true e = ground (arith, e)
    by_type false false e = ground (arith, e)

not_higher-rank : (h p : Highest) → is_higher h p ≡ false → rank h ≤ rank p
not_higher-rank h p e = by_type h.is_unified p.is_unified e
  where
    by_type :
        (b c : Bool)
        → (ltb p.level h.level || (h.level == p.level && (b && not c))) ≡ false
        → 2 * h.level + (if b then 1 else 0) ≤ 2 * p.level + (if c then 1 else 0)
    by_type true true e = ground (arith, e)
    by_type true false e = ground (arith, e)
    by_type false true e = ground (arith, e)
    by_type false false e = ground (arith, e)

abbrev pub SomeOf : {A : Type 0} → (A → Type 0) → List A → Type 0
SomeOf P [] = ⊥
SomeOf P (x ∷ xs) = P x ⊎ SomeOf P xs

-- What one candidate does to the entry of a CPU: `old` before it and `new` behind it.
abbrev IsStep : ℕ → Option (ℕ × Highest) → Option Highest → Option Highest → Type 0
IsStep cpu c old new =
    AtMost old new
    × ((h : Highest) → c ≡ some (cpu, h) → AtMost (some h) new)
    × ((new ≡ old) ⊎ ((h : Highest) × (c ≡ some (cpu, h)) × (new ≡ some h)))

-- The candidate is the new entry.
taken-IsStep :
    (cpu : ℕ) (h : Highest) (old : Option Highest)
    → AtMost old (some h)
    → IsStep cpu (some (cpu, h)) old (some h)
taken-IsStep cpu h old l =
    (l, λ k e. let same : h ≡ k = cc e in rw same (AtMost-refl (some k)), inr (h, refl, refl))

-- The candidate is not better.
refused-IsStep :
    (cpu : ℕ) (h : Highest) (old : Option Highest)
    → AtMost (some h) old
    → IsStep cpu (some (cpu, h)) old old
refused-IsStep cpu h old l =
    (AtMost-refl old, λ k e. let same : k ≡ h = cc e in rw same l, inl refl)

-- The candidate is of another CPU.
other-IsStep :
    (cpu k : ℕ) (h : Highest) (old new : Option Highest)
    → k ≢ cpu
    → new ≡ old
    → IsStep cpu (some (k, h)) old new
other-IsStep cpu k h old new ne e = rw e (AtMost-refl old, λ x q. absurd (ne (cc q)), inl refl)

offered-IsStep :
    (cpu : ℕ) (h : Highest) (d : Dict ℕ Highest)
    → IsStep cpu
        (some (cpu, h))
        (get ℕ_discrete cpu d)
        (get ℕ_discrete cpu (keep_higher (some (cpu, h)) d))
offered-IsStep cpu h d = elim (Option-cases (get ℕ_discrete cpu d)) [
  | inl e ↦ rw (e, get-put_self ℕ_discrete cpu h d) (taken-IsStep cpu h none tt)
  | inr (p, e) ↦ elim (Bool-cases (is_higher h p)) [
    | inl q ↦
        rw (e, q, get-put_self ℕ_discrete cpu h d)
          (taken-IsStep cpu h (some p) (is_higher-rank h p q))
    | inr q ↦ rw (e, q, e) (refused-IsStep cpu h (some p) (not_higher-rank h p q))
  ]
]

keep_higher-IsStep :
    (cpu : ℕ) (c : Option (ℕ × Highest)) (d : Dict ℕ Highest)
    → IsStep cpu c (get ℕ_discrete cpu d) (get ℕ_discrete cpu (keep_higher c d))
keep_higher-IsStep cpu none d = (AtMost-refl (get ℕ_discrete cpu d), λ h e. absurd cc, inl refl)
keep_higher-IsStep cpu (some (k, h)) d = elim (ℕ_discrete k cpu) [
  | yes e ↦ rw e (offered-IsStep cpu h d)
  | no ne ↦ elim (Bool-cases (is_better h (get ℕ_discrete k d))) [
    | inl q ↦ rw q (other-IsStep cpu k h (get ℕ_discrete cpu d) _ ne (get-put_ne ℕ_discrete h d ne))
    | inr q ↦ rw q (other-IsStep cpu k h (get ℕ_discrete cpu d) _ ne refl)
  ]
]

module _ (effective : List ℕ) (cpu : ℕ) where
  abbrev pub IsOffer : Highest → CacheFiles → Type 0
  IsOffer h files = candidate effective files ≡ some (cpu, h)

  -- No cache of the CPU that passes the tests is higher than the one selected.
  abbrev pub IsHighest : List CacheFiles → Option Highest → Type 0
  IsHighest caches r = All (λ files. (h : Highest) → IsOffer h files → AtMost (some h) r) caches

  abbrev pub IsOffered : List CacheFiles → Option Highest → Type 0
  IsOffered caches none = ⊥
  IsOffered caches (some h) = SomeOf (IsOffer h) caches

  -- From the entries before a loop to those behind it.
  abbrev IsLoop : List CacheFiles → Option Highest → Option Highest → Type 0
  IsLoop caches old new =
      AtMost old new × IsHighest caches new × ((new ≡ old) ⊎ IsOffered caches new)

  IsOffered-first :
      (files : CacheFiles) (more : List CacheFiles) (h : Highest) (new : Option Highest)
      → IsOffer h files
      → new ≡ some h
      → IsOffered (files ∷ more) new
  IsOffered-first files more h new o e = rw e (inl o)

  IsOffered-later :
      (files : CacheFiles) (more : List CacheFiles) (new : Option Highest)
      → IsOffered more new
      → IsOffered (files ∷ more) new
  IsOffered-later files more none o = absurd o
  IsOffered-later files more (some h) o = inr o

  IsLoop-step :
      (files : CacheFiles) (more : List CacheFiles) (old middle new : Option Highest)
      → IsStep cpu (candidate effective files) old middle
      → IsLoop more middle new
      → IsLoop (files ∷ more) old new
  IsLoop-step files more old middle new (a, b, c) (x, y, z) = (
    AtMost-trans old middle new a x,
    (λ h o. AtMost-trans (some h) middle new (b h o) x, y),
    elim z [
      | inr o ↦ inr (IsOffered-later files more new o)
      | inl e ↦ elim c [
        | inl e' ↦ inl (e ∙ e')
        | inr (h, o, e') ↦ inr (IsOffered-first files more h new o (e ∙ e'))
      ]
    ],
  )

  highest_from-IsLoop :
      (caches : List CacheFiles) (d : Dict ℕ Highest)
      → IsLoop caches (get ℕ_discrete cpu d) (get ℕ_discrete cpu (highest_from effective caches d))
  unfolding highest_from
  highest_from-IsLoop [] d = (AtMost-refl (get ℕ_discrete cpu d), tt, inl refl)
  highest_from-IsLoop (files ∷ more) d =
      IsLoop-step files more (get ℕ_discrete cpu d)
        (get ℕ_discrete cpu (keep_higher (candidate effective files) d))
        (get ℕ_discrete cpu
          (highest_from effective more (keep_higher (candidate effective files) d)))
        (keep_higher-IsStep cpu (candidate effective files) d)
        (highest_from-IsLoop more (keep_higher (candidate effective files) d))

-- For every CPU the loop selects a cache that passes the tests and has the highest level, a unified one
-- before one for data; it selects none only if no cache of the CPU passes them.
pub highest_by_cpu-IsHighest :
    (effective : List ℕ) (caches : List CacheFiles) (cpu : ℕ)
    → IsHighest effective cpu caches (get ℕ_discrete cpu (highest_by_cpu effective caches))
      × ((get ℕ_discrete cpu (highest_by_cpu effective caches) ≡ none)
          ⊎ IsOffered effective cpu caches (get ℕ_discrete cpu (highest_by_cpu effective caches)))
unfolding get
highest_by_cpu-IsHighest effective caches cpu =
    let h = highest_from-IsLoop effective cpu caches [] in (h.1, h.2)
