-- ===== src/KvTtl/Evaluation.antt =====
-- `evaluate_bucket_ttl`: the costs of one call.
use claw_tune.Base.{
  ℕ, ◌+◌, ◌-◌, ◌<◌, min, max, ◌≡◌, ◌↔◌, refl, inl, inr, ℤ, ltb, ◌==◌, true, none, some, List,
  length, get_elem?, arith, Bool-cases,
}
use claw_tune.KvTtl.{
  Float, returned, validate_policy, evaluate_bucket_ttl, evaluation, BucketTtlEvaluation,
  bisect_right,
}
use claw_tune.KvTtl.Rank.{
  nat, rank, bisect_right-rank, get_elem?-map, get_elem?-some, length-map, IsPolicy,
}
use claw_tune.KvTtl.Interval.{HasExpired, IsEviction, bucket_at}
use claw_tune.KvTtl.Eviction.{eviction_time_for_bucket_ttl-least}

-- What the evaluation says of a call that ran for `actual`, under the policy `p`.
pub record IsEvaluation (actual : ℕ) {initial : ℤ} {boundaries ttls : List Float}
    (p : IsPolicy initial boundaries ttls) (r : BucketTtlEvaluation) : Type 0 where
  pub eviction : ℕ
  pub eviction_time : r.kv_eviction_time_s ≡ nat eviction
  pub least : IsEviction p.k p.bs p.ts eviction
  -- C_R = min(T, D)
  pub retention : r.kv_retention_time_s ≡ nat (min actual eviction)
  -- C_M = 1[T > D]: the call outlives a time at which the TTL of its bucket had passed.
  pub miss : (r.kv_cache_miss ≡ true) ↔ ((t : ℕ) × (t < actual) × HasExpired p.k p.bs p.ts t)
  pub first : r.initial_bucket_index ≡ p.k
  pub final : r.final_bucket_index ≡ bucket_at p.k p.bs actual
  pub jumps : r.num_bucket_jumps + p.k ≡ r.final_bucket_index
  pub exhausted : (r.bucket_exhausted ≡ true) ↔ (rank p.bs actual ≡ length p.bs)

miss_iff :
    (actual d k : ℕ) (bs ts : List ℕ)
    → IsEviction k bs ts d
    → (ltb d actual ≡ true) ↔ ((t : ℕ) × (t < actual) × HasExpired k bs ts t)
miss_iff actual d k bs ts least = (
  λ h. (d, ground (arith, h), least.expired),
  λ (t, l, e). elim (Bool-cases (ltb t d)) [
    | inl before ↦ absurd (least.least t (ground (arith, before)) e)
    | inr after ↦ ground (arith, after, l)
  ],
)

-- For a finite running time that is not negative and a policy that passes the validation, the
-- evaluation is there: it holds the minimum of the running time and the least eviction time, a miss
-- exactly if the call outlives a time at which the TTL of its bucket had passed, and the bucket that
-- the call ends in.
pub evaluate_bucket_ttl-IsEvaluation :
    (actual : ℕ) (initial : ℤ) (boundaries ttls : List Float)
    → validate_policy initial boundaries ttls ≡ none
    → (p : IsPolicy initial boundaries ttls) × ((r : BucketTtlEvaluation) × (evaluate_bucket_ttl
            (nat actual)
            initial
            boundaries
            ttls
          ≡ returned r)
        × IsEvaluation actual p r)
unfolding evaluate_bucket_ttl evaluation
evaluate_bucket_ttl-IsEvaluation actual initial boundaries ttls valid =
    let (p, (d, value, least)) = eviction_time_for_bucket_ttl-least initial boundaries ttls valid in
    let (ttl, there) = get_elem?-some p.ts p.k (omega (arith, p.in_range, p.count)) in
    let there' : get_elem? ttls p.k ≡ some (nat ttl) =
      rw p.ttls_are (ground (arith, there, get_elem?-map p.ts p.k)) in
    let observed : bisect_right boundaries (nat actual) ≡ rank p.bs actual =
      rw p.boundaries_are (bisect_right-rank p.bs actual) in
    let count : length boundaries ≡ length p.bs = rw p.boundaries_are (length-map p.bs) in
    (
      p,
      (
        record {
          actual_time_s = nat actual;
          initial_bucket_index = p.k;
          final_bucket_index = max p.k (rank p.bs actual);
          num_bucket_jumps = max p.k (rank p.bs actual) - p.k;
          bucket_exhausted = rank p.bs actual == length p.bs;
          ttl_s = nat ttl;
          kv_eviction_time_s = nat d;
          kv_retention_time_s = nat (min actual d);
          kv_cache_miss = ltb d actual;
        },
        ground (arith, value, there', observed, count, p.initial_is),
        record {
          eviction = d;
          eviction_time = refl;
          least = least;
          retention = refl;
          miss = miss_iff actual d p.k p.bs p.ts least;
          first = refl;
          final = refl;
          jumps = omega arith;
          exhausted = ground arith;
        },
      ),
    )
