-- ===== src/KvTtl/Interval.antt =====
-- The formula of the docstring of `eviction_time_for_bucket_ttl`,
-- D = inf {t >= 0 | tau[k(t)] == 0 or t >= tau[k(t)]}, with k(t) = max(k_0, max {k | b_k <= t}),
-- and what one interval of the loop decides of it.
use claw_tune.Base.{
  ℕ, zero, suc, ◌-◌, ◌≤◌, ◌<◌, max, ◌≡◌, ◌≢◌, refl, ap, ◌∙◌, ◌⊎◌, inl, inr, ltb, Option, none, some,
  List, [], ◌∷◌, map, length, get_elem?, arith, Bool-cases, Option-cases,
}
use claw_tune.KvTtl.{Float, inf, interval_start, interval_end, evict_within}
use claw_tune.KvTtl.Rank.{
  nat, IsSorted, rank, get_elem?-map, length-map, rank-le-length, rank-le, IsSorted-above, rank-gt,
  get_elem?-sorted,
}

-- The bucket that counts at `t`.
abbrev pub bucket_at : ℕ → List ℕ → ℕ → ℕ
bucket_at initial bs t = max initial (rank bs t)

-- The set of the docstring: at `t`, the TTL of the bucket is 0 or has passed.
abbrev pub HasExpired : ℕ → List ℕ → List ℕ → ℕ → Type 0
HasExpired initial bs ts t =
    (ttl : ℕ) × (get_elem? ts (bucket_at initial bs t) ≡ some ttl) × ((ttl ≡ 0) ⊎ (ttl ≤ t))

-- The least time of the set.
pub record IsEviction (initial : ℕ) (bs ts : List ℕ) (d : ℕ) : Type 0 where
  pub expired : HasExpired initial bs ts d
  pub least : (t : ℕ) → t < d → HasExpired initial bs ts t → ⊥

abbrev pub Start : ℕ → List ℕ → ℕ → ℕ → Type 0
Start initial bs k s = ((k ≡ initial) × (s ≡ 0)) ⊎ ((initial < k) × (get_elem? bs (k - 1) ≡ some s))

pub Start-value :
    (initial : ℕ) (bs : List ℕ) (k s : ℕ)
    → Start initial bs k s
    → interval_start initial (map nat bs) k ≡ some (nat s)
Start-value initial bs k s (inl (p, q)) = ground (arith, p, q)
Start-value initial bs k s (inr (p, q)) = ground (arith, p, q, get_elem?-map bs (k - 1))

-- The end of an interval: a boundary, or none for the last.
abbrev pub end_float : Option ℕ → Float
end_float none = inf
end_float (some b) = nat b

abbrev pub IsBelow : ℕ → Option ℕ → Type 0
IsBelow t none = Unit
IsBelow t (some b) = t < b

pub get_elem?-lt : (xs : List ℕ) (k : ℕ) {b : ℕ} → get_elem? xs k ≡ some b → k < length xs
get_elem?-lt [] k h = absurd cc
get_elem?-lt (x ∷ xs) zero h = omega arith
get_elem?-lt (x ∷ xs) (suc k) h = omega (arith, get_elem?-lt xs k h)

get_elem?-none : (xs : List ℕ) (k : ℕ) → get_elem? xs k ≡ none → length xs ≤ k
get_elem?-none [] k h = omega arith
get_elem?-none (x ∷ xs) zero h = absurd cc
get_elem?-none (x ∷ xs) (suc k) h = omega (arith, get_elem?-none xs k h)

pub end_value :
    (bs : List ℕ) (k : ℕ)
    → k ≤ length bs
    → interval_end (map nat bs) k ≡ some (end_float (get_elem? bs k))
end_value bs k l = elim (Option-cases (get_elem? bs k)) [
  | inl h ↦ ground (arith, h, get_elem?-none bs k h, length-map bs)
  | inr (b, h) ↦ ground (arith, h, get_elem?-map bs k, length-map bs, get_elem?-lt bs k h)
]

-- Within an interval, the bucket is the interval's.
module _ (initial : ℕ) (bs : List ℕ) (sorted : IsSorted 0 bs) where
  pub at_least : (k s t : ℕ) → Start initial bs k s → s ≤ t → k ≤ bucket_at initial bs t
  at_least k s t (inl (p, q)) l = ground arith
  at_least k s t (inr (p, q)) l = ground (arith, rank-gt 0 bs (k - 1) sorted q l)

  pub at_most : (k t : ℕ) → initial ≤ k → IsBelow t (get_elem? bs k) → bucket_at initial bs t ≤ k
  at_most k t i l = elim (Option-cases (get_elem? bs k)) [
    | inl h ↦ omega (arith, i, rank-le-length bs t, get_elem?-none bs k h)
    | inr (b, h) ↦ omega (arith, i, rank-le bs k h (rw h at l))
  ]

  pub Start-IsBelow : (k s : ℕ) → Start initial bs k s → IsBelow s (get_elem? bs k)
  Start-IsBelow k s st = elim (Option-cases (get_elem? bs k)) [
    | inl h ↦ rw h tt
    | inr (b, h) ↦ rw h (below k s b st h)
  ]
    where
      below : (k s b : ℕ) → Start initial bs k s → get_elem? bs k ≡ some b → s < b
      below k s b (inl (p, q)) h = ground (arith, IsSorted-above 0 bs k sorted h)
      below zero s b (inr (p, q)) h = absurd (omega (arith, p))
      below (suc k) s b (inr (p, q)) h =
          get_elem?-sorted 0 bs k sorted (ap (get_elem? bs) (omega arith) ∙ q) h

  module _ (ts : List ℕ) where
    pub expired_at :
        (k t ttl : ℕ)
        → bucket_at initial bs t ≡ k
        → get_elem? ts k ≡ some ttl
        → (ttl ≡ 0) ⊎ (ttl ≤ t)
        → HasExpired initial bs ts t
    expired_at k t ttl p h c = (ttl, rw p h, c)

    pub not_expired :
        (k t ttl : ℕ)
        → bucket_at initial bs t ≡ k
        → get_elem? ts k ≡ some ttl
        → ttl ≢ 0
        → t < ttl
        → HasExpired initial bs ts t
        → ⊥
    not_expired k t ttl p h n l (other, e, c) = ground (arith, p, h, n, l, e, c)

-- What one interval decides: a time in it, from which on its TTL has passed, or nothing, when its
-- TTL reaches its end.
unfoldable pub Decided : (s ttl : ℕ) → Option ℕ → Type 0
Decided s ttl e =
    ((t : ℕ) × (evict_within (nat s) (end_float e) (nat ttl) ≡ some (nat t))
      × (s ≤ t)
      × IsBelow t e
      × ((ttl ≡ 0) ⊎ (ttl ≤ t))
      × ((t ≡ s) ⊎ ((t ≡ ttl) × (s < ttl))))
    ⊎ ((b : ℕ) × (e ≡ some b)
        × (evict_within (nat s) (end_float e) (nat ttl) ≡ none)
        × (ttl ≢ 0)
        × (b ≤ ttl))

pub decided : (s ttl : ℕ) (e : Option ℕ) → IsBelow s e → Decided s ttl e
unfolding evict_within Decided
decided s zero e l = inl (s, refl, omega arith, l, inl refl, inl refl)
decided s (suc n) none l = elim (Bool-cases (ltb s (suc n))) [
  | inl a ↦ inl (
    suc n,
    ground (arith, a),
    ground (arith, a),
    tt,
    inr (omega arith),
    inr (refl, ground (arith, a)),
  )
  | inr a ↦ inl (s, ground (arith, a), omega arith, tt, inr (ground (arith, a)), inl refl)
]
decided s (suc n) (some b) l = elim (Bool-cases (ltb s (suc n))) [
  | inr a ↦ inl (s, ground (arith, a, l), omega arith, l, inr (ground (arith, a)), inl refl)
  | inl a ↦ elim (Bool-cases (ltb (suc n) b)) [
    | inl c ↦ inl (
      suc n,
      ground (arith, a, c),
      ground (arith, a),
      ground (arith, c),
      inr (omega arith),
      inr (refl, ground (arith, a)),
    )
    | inr c ↦ inr (b, refl, ground (arith, a, c), (λ e. ground (arith, e)), ground (arith, c))
  ]
]
