-- ===== src/KvTtl/Eviction.antt =====
-- `eviction_time_for_bucket_ttl` against its docstring's formula.
use claw_tune.Base.{
  ℕ, zero, suc, ◌+◌, ◌-◌, ◌≤◌, ◌<◌, ◌≡◌, ◌≢◌, refl, ap, ◌∙◌, ◌⊎◌, inl, inr, ℤ, ltb, Option, none,
  some, List, map, length, get_elem?, arith, Bool-cases, Option-cases,
}
use claw_tune.KvTtl.{
  Float, Outcome, PolicyError, returned, value_error, validate_policy, interval_start, interval_end,
  evict_within, eviction_loop, eviction_time_for_bucket_ttl,
}
use claw_tune.KvTtl.Rank.{
  nat, IsSorted, get_elem?-map, length-map, get_elem?-some, IsPolicy, validate_policy-IsPolicy,
}
use claw_tune.KvTtl.Interval.{
  HasExpired, IsEviction, bucket_at, Start, IsBelow, Start-value, end_value, at_least, at_most,
  Start-IsBelow, expired_at, not_expired, Decided, decided, get_elem?-lt,
}

-- No time before `s` is in the set.
abbrev NoneBefore : (initial : ℕ) (bs ts : List ℕ) → ℕ → Type 0
NoneBefore initial bs ts s = (t : ℕ) → t < s → HasExpired initial bs ts t → ⊥

-- The loop returns the least time.
abbrev pub Returns : (initial : ℕ) (bs ts : List ℕ) → Outcome Float → Type 0
Returns initial bs ts o = (d : ℕ) × (o ≡ returned (nat d)) × IsEviction initial bs ts d

-- One turn of the loop, once what it reads is known.
module _ (initial : ℕ) (boundaries ttls : List Float) (n k : ℕ) {start end_ ttl : Float}
    (hs : interval_start initial boundaries k ≡ some start)
    (he : interval_end boundaries k ≡ some end_) (ht : get_elem? ttls k ≡ some ttl) where
  turn :
      (o : Option Float)
      → evict_within start end_ ttl ≡ o
      → eviction_loop initial boundaries ttls (suc n) k
        ≡ elim o [ some d ↦ returned d | none ↦ eviction_loop initial boundaries ttls n (suc k) ]
  unfolding eviction_loop
  turn o v = rw (hs, eviction_loop, he, ht, v)

module _ (initial : ℕ) (bs ts : List ℕ) (sorted : IsSorted 0 bs)
    (count : length ts ≡ suc (length bs)) where
  module _ (k s ttl : ℕ) (i : initial ≤ k) (st : Start initial bs k s)
      (before : NoneBefore initial bs ts s) (h : get_elem? ts k ≡ some ttl) where
    in_interval : (t : ℕ) → s ≤ t → IsBelow t (get_elem? bs k) → bucket_at initial bs t ≡ k
    in_interval t l b =
        omega (arith, at_least initial bs sorted k s t st l, at_most initial bs sorted k t i b)

    not_before :
        (t u : ℕ)
        → (s ≤ t → IsBelow t (get_elem? bs k))
        → (s ≤ t → (ttl ≢ 0) × (t < ttl))
        → HasExpired initial bs ts t
        → ⊥
    not_before t u below late expired = elim (Bool-cases (ltb t s)) [
      | inl l ↦ before t (ground (arith, l)) expired
      | inr g ↦
          let l : s ≤ t = ground (arith, g) in
          not_expired initial bs sorted ts k t ttl (in_interval t l (below l)) h (late l).0
            (late l).1 expired
    ]

  eviction_loop-Returns :
      (n k s : ℕ)
      → initial ≤ k
      → k ≤ length bs
      → n + k ≡ length ts
      → Start initial bs k s
      → NoneBefore initial bs ts s
      → Returns initial bs ts (eviction_loop initial (map nat bs) (map nat ts) n k)
  unfolding Decided
  eviction_loop-Returns zero k s i l c st before = absurd (omega (arith, c, l, count))
  eviction_loop-Returns (suc n) k s i l c st before =
      let (ttl, h) = get_elem?-some ts k (omega (arith, c, l, count)) in
      let ttl_there : get_elem? (map nat ts) k ≡ some (nat ttl) =
        ground (arith, h, get_elem?-map ts k) in
      elim (decided s ttl (get_elem? bs k) (Start-IsBelow initial bs sorted k s st)) [
        | inl (t, value, from, below, passed, why) ↦ (
          t,
          turn initial (map nat bs) (map nat ts) n k (Start-value initial bs k s st)
              (end_value bs k l) ttl_there _ value,
          record {
            expired =
                expired_at initial bs sorted ts k t ttl
                  (in_interval k s ttl i st before h t from below) h passed;
            least = λ u lu e.
                not_before k s ttl i st before h u u (λ _. earlier (get_elem? bs k) u t lu below)
                  (λ su. (ground (arith, why, su, lu), ground (arith, why, su, lu))) e;
          },
        )
        | inr (b, at_end, value, positive, beyond) ↦
            rw
              (turn initial (map nat bs) (map nat ts) n k (Start-value initial bs k s st)
                (end_value bs k l) ttl_there _ value)
              (eviction_loop-Returns n (suc k) b (omega (arith, i)) (get_elem?-lt bs k at_end)
                (omega (arith, c))
                (inr (omega (arith, i), ap (get_elem? bs) (omega arith) ∙ at_end))
                (λ u lu e.
                  not_before k s ttl i st before h u u (λ _. rw at_end lu)
                    (λ su. (positive, omega (arith, lu, beyond))) e))
      ]
    where
      earlier : (e : Option ℕ) (u t : ℕ) → u < t → IsBelow t e → IsBelow u e
      earlier none u t l b = tt
      earlier (some x) u t l b = omega (arith, l, b)

-- The eviction time of a policy that passes the validation is there, and is the least time of the
-- docstring's set: no error is left to raise.
pub eviction_time_for_bucket_ttl-least :
    (initial : ℤ) (boundaries ttls : List Float)
    → validate_policy initial boundaries ttls ≡ none
    → (p : IsPolicy initial boundaries ttls) × Returns p.k p.bs p.ts
        (eviction_time_for_bucket_ttl initial boundaries ttls)
unfolding eviction_time_for_bucket_ttl
eviction_time_for_bucket_ttl-least initial boundaries ttls valid =
    let p = validate_policy-IsPolicy initial boundaries ttls valid in
    let (d, value, least) =
      eviction_loop-Returns p.k p.bs p.ts p.sorted p.count (length p.ts - p.k) p.k 0 (omega arith)
        p.in_range (omega (arith, p.in_range, p.count)) (inl (refl, refl))
        (λ t l _. omega (arith, l)) in
    (
      p,
      (
        d,
        rw
            (
              valid,
              eviction_time_for_bucket_ttl,
              p.initial_is,
              p.boundaries_are,
              p.ttls_are,
              length-map p.ts,
            )
            value,
        least,
      ),
    )

-- Every call ends with a value or a `ValueError`: the list accesses are in range, and the
-- `AssertionError` behind the loop is never raised.
pub eviction_time_for_bucket_ttl-total :
    (initial : ℤ) (boundaries ttls : List Float)
    → ((e : PolicyError) × (eviction_time_for_bucket_ttl initial boundaries ttls ≡ value_error e))
      ⊎ ((d : ℕ) × (eviction_time_for_bucket_ttl initial boundaries ttls ≡ returned (nat d)))
unfolding eviction_time_for_bucket_ttl
eviction_time_for_bucket_ttl-total initial boundaries ttls =
    elim (Option-cases (validate_policy initial boundaries ttls)) [
      | inr (e, bad) ↦ inl (e, rw (bad, eviction_time_for_bucket_ttl))
      | inl valid ↦
          let (p, (d, value, least)) =
            eviction_time_for_bucket_ttl-least initial boundaries ttls valid in
          inr (d, value)
    ]
