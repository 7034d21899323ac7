-- ===== src/KvTtl.antt =====
-- services/sidecar/src/tool_resource/kv_ttl.py: when the KV cache of a paused call is evicted, given
-- a TTL for each bucket of running times. A finite float stands for its value in units of 2^-1074,
-- of which every finite double is a whole multiple; the code only compares and copies floats.
pub mod Rank
pub mod Interval
pub mod Eviction
pub mod Evaluation
use claw_tune.Base.{
  ℕ, zero, suc, ◌+◌, ◌-◌, max, ℤ, pos, negsuc, ltb, leb, ◌==◌, Bool, true, false, not, ◌&&◌, ◌||◌,
  Option, none, some, List, [], ◌∷◌, length, get_elem?, if◌then◌else◌,
}

-- A float.
pub data Float : Type 0 where
  nan inf neg_inf : Float
  fin : ℤ → Float

abbrev pub zero_float : Float
zero_float = fin (pos 0)

abbrev pub ltb_ℤ : ℤ → ℤ → Bool
ltb_ℤ (pos a) (pos b) = ltb a b
ltb_ℤ (pos a) (negsuc b) = false
ltb_ℤ (negsuc a) (pos b) = true
ltb_ℤ (negsuc a) (negsuc b) = ltb b a

-- `a < b`
abbrev pub float_lt : Float → Float → Bool
float_lt (fin a) (fin b) = ltb_ℤ a b
float_lt (fin a) inf = true
float_lt neg_inf (fin b) = true
float_lt neg_inf inf = true
float_lt _ _ = false

-- `a <= b`
abbrev pub float_le : Float → Float → Bool
float_le (fin a) (fin b) = not (ltb_ℤ b a)
float_le (fin a) inf = true
float_le inf inf = true
float_le neg_inf (fin b) = true
float_le neg_inf inf = true
float_le neg_inf neg_inf = true
float_le _ _ = false

-- `a == 0.0`
abbrev pub is_zero : Float → Bool
is_zero (fin (pos zero)) = true
is_zero _ = false

-- `math.isfinite`
abbrev pub is_finite : Float → Bool
is_finite (fin _) = true
is_finite _ = false

-- `max(a, b)` and `min(a, b)`: the first unless the second is beyond it.
abbrev pub float_max : Float → Float → Float
float_max a b = if float_lt a b then b else a

abbrev pub float_min : Float → Float → Float
float_min a b = if float_lt b a then b else a

-- `bisect.bisect_right`, on a list in order.
unfoldable pub bisect_right : List Float → Float → ℕ
bisect_right [] x = 0
bisect_right (b ∷ bs) x = let rest = bisect_right bs x in if float_lt x b then 0 else suc rest

-- Which `ValueError`.
pub data PolicyError : Type 0 where
  empty_boundaries bad_boundaries wrong_ttl_count bad_ttl bad_index bad_actual : PolicyError

pub data Outcome (A : Type 0) : Type 0 where
  returned : A → Outcome A
  value_error : PolicyError → Outcome A
  index_error : Outcome A
  assertion_error : Outcome A

-- The loop over the boundaries: whether it raises.
unfoldable pub has_bad_boundary : Float → List Float → Bool
has_bad_boundary previous [] = false
has_bad_boundary previous (b ∷ bs) =
    not (is_finite b) || (float_le b previous || has_bad_boundary b bs)

-- The loop over the TTL values.
unfoldable pub has_bad_ttl : List Float → Bool
has_bad_ttl [] = false
has_bad_ttl (t ∷ ts) = (not (is_finite t) || float_lt t zero_float) || has_bad_ttl ts

-- `0 <= index < count`
abbrev pub is_index : ℤ → ℕ → Bool
is_index (pos k) count = ltb k count
is_index (negsuc _) count = false

abbrev pub is_empty : List Float → Bool
is_empty [] = true
is_empty (_ ∷ _) = false

-- `_validate_policy`
unfoldable pub validate_policy : ℤ → List Float → List Float → Option PolicyError
validate_policy initial boundaries ttls =
    if is_empty boundaries
    then some empty_boundaries
    else if has_bad_boundary zero_float boundaries
    then some bad_boundaries
    else if not (length ttls == length boundaries + 1)
    then some wrong_ttl_count
    else if has_bad_ttl ttls
    then some bad_ttl
    else if not (is_index initial (length boundaries + 1))
    then some bad_index
    else none

-- `bucket_boundaries_s[bucket_index - 1]`, or 0.0 in the first interval.
abbrev pub interval_start : ℕ → List Float → ℕ → Option Float
interval_start initial boundaries k =
    if k == initial then some zero_float else get_elem? boundaries (k - 1)

abbrev pub interval_end : List Float → ℕ → Option Float
interval_end boundaries k = if ltb k (length boundaries) then get_elem? boundaries k else some inf

-- The body of the loop over the buckets: the value that it returns, if it returns.
unfoldable pub evict_within : (start end_ ttl : Float) → Option Float
evict_within start end_ ttl =
    if is_zero ttl
    then some start
    else let candidate = float_max start ttl in
      if float_lt candidate end_ then some candidate else none

-- The loop over the `n` buckets from `k` on.
unfoldable pub eviction_loop : ℕ → List Float → List Float → (n k : ℕ) → Outcome Float
eviction_loop initial boundaries ttls zero k = assertion_error
eviction_loop initial boundaries ttls (suc n) k = elim (interval_start initial boundaries k) [
  | none ↦ index_error
  | some start ↦ elim (interval_end boundaries k) [
    | none ↦ index_error
    | some end_ ↦ elim (get_elem? ttls k) [
      | none ↦ index_error
      | some ttl ↦ elim (evict_within start end_ ttl) [
        | some d ↦ returned d
        | none ↦ eviction_loop initial boundaries ttls n (suc k)
      ]
    ]
  ]
]

-- A valid index as a natural number.
abbrev pub index_of : ℤ → ℕ
index_of (pos k) = k
index_of (negsuc _) = 0

unfoldable pub eviction_time_for_bucket_ttl : ℤ → List Float → List Float → Outcome Float
eviction_time_for_bucket_ttl initial boundaries ttls =
    elim (validate_policy initial boundaries ttls) [
      | some e ↦ value_error e
      | none ↦ let k = index_of initial in eviction_loop k boundaries ttls (length ttls - k) k
    ]

-- `BucketTTLEvaluation`
pub record BucketTtlEvaluation : Type 0 where
  pub actual_time_s : Float
  pub initial_bucket_index : ℕ
  pub final_bucket_index : ℕ
  pub num_bucket_jumps : ℕ
  pub bucket_exhausted : Bool
  pub ttl_s : Float
  pub kv_eviction_time_s : Float
  pub kv_retention_time_s : Float
  pub kv_cache_miss : Bool

-- What is returned once the eviction time is there.
unfoldable pub evaluation :
    Float → ℕ → List Float → List Float → Float → Outcome BucketTtlEvaluation
evaluation actual initial buckets ttls eviction =
    let observed = bisect_right buckets actual in
    elim (get_elem? ttls initial) [
      | none ↦ index_error
      | some ttl ↦ returned (record {
        actual_time_s = actual;
        initial_bucket_index = initial;
        final_bucket_index = max initial observed;
        num_bucket_jumps = max initial observed - initial;
        bucket_exhausted = observed == length buckets;
        ttl_s = ttl;
        kv_eviction_time_s = eviction;
        kv_retention_time_s = float_min actual eviction;
        kv_cache_miss = float_lt eviction actual;
      })
    ]

unfoldable pub evaluate_bucket_ttl :
    Float → ℤ → List Float → List Float → Outcome BucketTtlEvaluation
evaluate_bucket_ttl actual initial buckets ttls =
    if not (is_finite actual) || float_lt actual zero_float
    then value_error bad_actual
    else elim (eviction_time_for_bucket_ttl initial buckets ttls) [
      | value_error e ↦ value_error e
      | index_error ↦ index_error
      | assertion_error ↦ assertion_error
      | returned eviction ↦ evaluation actual (index_of initial) buckets ttls eviction
    ]
