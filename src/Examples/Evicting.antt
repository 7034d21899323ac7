-- ===== src/Examples/Evicting.antt =====
-- A policy of three buckets, 0 to 2, 2 to 10 and from 10 on.
use claw_tune.Base.{◌≡◌, refl, pos, none, List, [], ◌∷◌}
use claw_tune.KvTtl.{
  Float, returned, validate_policy, has_bad_boundary, has_bad_ttl, eviction_time_for_bucket_ttl,
  evaluate_bucket_ttl, BucketTtlEvaluation,
}
use claw_tune.KvTtl.Rank.{nat, IsPolicy}
use claw_tune.KvTtl.Eviction.{Returns, eviction_time_for_bucket_ttl-least}
use claw_tune.KvTtl.Evaluation.{IsEvaluation, evaluate_bucket_ttl-IsEvaluation}

abbrev boundaries : List Float
boundaries = nat 2 ∷ nat 10 ∷ []

abbrev ttls : List Float
ttls = nat 5 ∷ nat 4 ∷ nat 0 ∷ []

valid : validate_policy (pos 0) boundaries ttls ≡ none
unfolding validate_policy has_bad_boundary has_bad_ttl
valid = refl

eviction_time_for_bucket_ttl-least_example :
    (p : IsPolicy (pos 0) boundaries ttls) × Returns p.k p.bs p.ts
      (eviction_time_for_bucket_ttl (pos 0) boundaries ttls)
eviction_time_for_bucket_ttl-least_example =
    eviction_time_for_bucket_ttl-least (pos 0) boundaries ttls valid

evaluate_bucket_ttl-IsEvaluation_example :
    (p : IsPolicy (pos 0) boundaries ttls) × ((r : BucketTtlEvaluation) × (evaluate_bucket_ttl
          (nat 7)
          (pos 0)
          boundaries
          ttls
        ≡ returned r)
      × IsEvaluation 7 p r)
evaluate_bucket_ttl-IsEvaluation_example =
    evaluate_bucket_ttl-IsEvaluation 7 (pos 0) boundaries ttls valid
