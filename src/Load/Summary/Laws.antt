-- ===== src/Load/Summary/Laws.antt =====
-- What `summarize` returns passes the validators of the contract.
use claw_tune.Base.{
  ℕ, ◌≤◌, ◌<◌, ◌≡◌, refl, ◌∙◌, true, false, none, some, List, [], ◌∷◌, All, length, arith,
}
use claw_tune.KvTtl.{Float}
use claw_tune.Load.{Value, total, Arithmetic, ArithmeticLaws, ratios, half_range}
use claw_tune.Load.Edges.{validate_edges, numbers, is_empty}
use claw_tune.Load.Samples.{clean, Numeric, numeric_of}
use claw_tune.Load.Samples.Total.{AreStatistics, numeric_of-AreStatistics}
use claw_tune.Load.Contract.{
  LoadTarget, LoadEstimate, available, unavailable, Backend, new_estimate, accepts, valid_buckets,
  valid_estimate, is_statistic, in_order, is_blank, has_zero, is_no_method, all_finite,
  has_bad_probability,
}
use claw_tune.Load.Summary.{
  Options, without_samples, with_samples, counts_or, summarize_values, summarize,
}

counts_or_good :
    (ns : List ℕ) (count : ℕ)
    → 0 < count
    → has_zero ns ≡ false
    → (is_empty (counts_or ns count) ≡ false) × (has_zero (counts_or ns count) ≡ false)
unfolding has_zero
counts_or_good [] count p h = (refl, ground arith)
counts_or_good (n ∷ ns) count p h = (refl, h)

-- How the status and the number of samples go with the clean values.
unfoldable pub Summarizes : List ℕ → LoadEstimate → Type 0
Summarizes [] e = (e.status ≡ unavailable) × (e.sample_count ≡ 0)
Summarizes (v ∷ vs) e = (e.status ≡ available) × (e.sample_count ≡ length (v ∷ vs))

module _ (f : Arithmetic) (laws : ArithmeticLaws f) where
  -- Parts of a whole are probabilities.
  ratios_are_probabilities :
      (count : ℕ) (ns : List ℕ)
      → 0 < count
      → total ns ≤ count
      → (all_finite (ratios f count ns) ≡ true)
        × (has_bad_probability (ratios f count ns) ≡ false)
        × (length (ratios f count ns) ≡ length ns)
  unfolding all_finite has_bad_probability
  ratios_are_probabilities count [] p h = (refl, refl, refl)
  ratios_are_probabilities count (n ∷ ns) p h =
      let (m, e, b) = laws.ratio_range n count (omega (arith, h)) p in
      let (fs, bs, ls) = ratios_are_probabilities count ns p (omega (arith, h)) in
      (rw e fs, rw e (ground (arith, b, bs)), omega (arith, ls))

  module _ (edges : List Float) (valid : validate_edges (numbers edges) ≡ some edges)
      (few : length edges < 1048576) where
    empty_buckets : valid_buckets f (record { edges = edges; probabilities = none }) ≡ true
    unfolding valid_buckets
    empty_buckets = rw valid refl

    full_buckets :
        (count : ℕ) (numeric : Numeric)
        → 0 < count
        → AreStatistics f laws edges count numeric
        → valid_buckets f (record { edges = edges; probabilities = some numeric.probabilities })
          ≡ true
    unfolding valid_buckets
    full_buckets count numeric p s =
        let (fs, bs, ls) =
          ratios_are_probabilities count s.counts p (omega (arith, s.all_counted)) in
        let whole : f.sums_to_one (ratios f count s.counts) ≡ true = rw (← s.all_counted) (
          laws.ratio_total s.counts (omega (arith, p, s.all_counted))
            (omega (arith, s.one_each, few))) in
        ground (arith, valid, s.probabilities_are, fs, bs, ls, whole, s.one_each)

    module _ (target : LoadTarget) (backend : Backend) (o : Options) where
      -- What the caller has to give: evidence counts that are positive, a method, and a reason.
      abbrev pub AreGood : Type 0
      AreGood =
          (has_zero o.evidence_counts ≡ false)
          × (is_no_method o.method ≡ false)
          × (is_blank (some o.reason) ≡ false)

      without_samples-accepts : AreGood → accepts f (without_samples target edges backend o) ≡ true
      unfolding accepts valid_estimate is_statistic
      without_samples-accepts good = ground (arith, empty_buckets, good)

      with_samples-accepts :
          (count : ℕ) (numeric : Numeric)
          → 0 < count
          → AreStatistics f laws edges count numeric
          → AreGood
          → accepts f (with_samples target edges backend o numeric count) ≡ true
      unfolding accepts valid_estimate is_statistic in_order has_zero
      with_samples-accepts count numeric p s good = ground (
        arith,
        full_buckets count numeric p s,
        s.mean_is,
        s.mid_is,
        s.high_is,
        s.mid_le,
        counts_or_good o.evidence_counts count p good.0,
      )

      new_estimate_lem : (e : LoadEstimate) → accepts f e ≡ true → new_estimate f e ≡ some e
      unfolding new_estimate
      new_estimate_lem e h = rw h refl

      summarize_values-some :
          (values : List ℕ)
          → All (λ n. n < half_range) values
          → AreGood
          → (e : LoadEstimate) × (summarize_values f target edges backend o values ≡ some e)
            × (accepts f e ≡ true)
            × Summarizes values e
      unfolding summarize_values Summarizes
      summarize_values-some [] small good =
          let ok = without_samples-accepts good in
          (without_samples target edges backend o, new_estimate_lem _ ok, ok, (refl, refl))
      summarize_values-some (v ∷ vs) small good =
          let (numeric, e, s) =
            numeric_of-AreStatistics f laws edges (v ∷ vs) (omega arith) small in
          let ok = with_samples-accepts (length (v ∷ vs)) numeric (omega arith) s good in
          (
            with_samples target edges backend o numeric (length (v ∷ vs)),
            step numeric e ∙ new_estimate_lem _ ok,
            ok,
            (refl, refl),
          )
        where
          step :
              (numeric : Numeric)
              → numeric_of f edges (v ∷ vs) ≡ some numeric
              → summarize_values f target edges backend o (v ∷ vs)
                ≡ new_estimate f (with_samples target edges backend o numeric (length (v ∷ vs)))
          step numeric e = rw (summarize_values, e) refl

-- `summarize` of edges that `validate_edges` accepts, fewer than 2^20, of samples whose finite values
-- that are not negative lie below 2^1023, and of good options returns an estimate. The estimate passes the
-- validators of the contract, is available just if one of the samples is such a value, and counts
-- these values. The arithmetic keeps the laws of rounding.
pub summarize-accepted :
    (f : Arithmetic) (laws : ArithmeticLaws f) (target : LoadTarget) (edges : List Float)
    (backend : Backend) (samples : List Value) (o : Options)
    → validate_edges (numbers edges) ≡ some edges
    → length edges < 1048576
    → All (λ n. n < half_range) (clean samples)
    → has_zero o.evidence_counts ≡ false
    → is_no_method o.method ≡ false
    → is_blank (some o.reason) ≡ false
    → (e : LoadEstimate) × (summarize f target edges backend samples o ≡ some e)
      × (accepts f e ≡ true)
      × Summarizes (clean samples) e
unfolding summarize
summarize-accepted f laws target edges backend samples o valid few small h1 h2 h3 =
    summarize_values-some f laws edges valid few target backend o (clean samples) small (h1, h2, h3)
