-- ===== src/Load/Samples/Total.antt =====
-- One or more values have statistics, with the median up to the 90th percentile.
use claw_tune.Base.{
  ℕ, suc, ◌+◌, ◌-◌, ◌/◌, ◌%◌, ◌≤◌, ◌<◌, ◌≡◌, refl, ◌∙◌, ◌==◌, some, List, [], ◌∷◌, All, length,
  get_elem?, arith, Bool-cases, inl, inr,
}
use claw_tune.KvTtl.{Float}
use claw_tune.KvTtl.Rank.{get_elem?-some}
use claw_tune.Load.{reading, total, Arithmetic, ArithmeticLaws, ratios, half_range}
use claw_tune.Load.Samples.{sort, zeros, count_buckets, p90_index, median, Numeric, numeric_of}
use claw_tune.Load.Samples.Laws.{
  length-sort, sort-IsOrdered, IsOrdered, All-sort, All-get, get-IsOrdered, All-le-last,
  p90_index_range, count_buckets_all,
}

module _ (f : Arithmetic) (laws : ArithmeticLaws f) where
  -- A median that exists, with nothing above it that stands at the 90th percentile or later.
  abbrev pub HasMedian : List ℕ → Type 0
  HasMedian ns =
      (m : ℕ) × (median f ns ≡ some (reading m))
      × ((b : ℕ) → get_elem? ns (p90_index (length ns)) ≡ some b → m ≤ b)

  pub median-HasMedian :
      (ns : List ℕ) → IsOrdered ns → 0 < length ns → All (λ n. n < half_range) ns → HasMedian ns
  unfolding median
  median-HasMedian ns s l small =
      let (lo, hi, mid) = p90_index_range (length ns) l in
      let (b, eb) = get_elem?-some ns (length ns / 2) mid in
      let (a, ea) = get_elem?-some ns (length ns / 2 - 1) (omega (arith, mid)) in
      let (m, em, am, mb) =
        laws.half_sum_range a b
          (get-IsOrdered ns (length ns / 2 - 1) (length ns / 2) s (omega arith) ea eb)
          (All-get (λ n. n < half_range) ns (length ns / 2) small eb) in
      elim (Bool-cases (length ns % 2 == 1)) [
        | inl odd ↦ (
          b,
          ground (arith, odd, eb),
          λ c ec. get-IsOrdered ns (length ns / 2) (p90_index (length ns)) s lo eb ec,
        )
        | inr even ↦ (
          m,
          ground (arith, even, eb, ea, em),
          λ c ec.
              omega
                (arith, mb, get-IsOrdered ns (length ns / 2) (p90_index (length ns)) s lo eb ec),
        )
      ]

  -- What the statistics of `count` values are.
  pub record AreStatistics (edges : List Float) (count : ℕ) (numeric : Numeric) : Type 0 where
    pub mean : ℕ
    pub mid : ℕ
    pub high : ℕ
    pub counts : List ℕ
    pub mean_is : numeric.avg ≡ reading mean
    pub mid_is : numeric.p50 ≡ reading mid
    pub high_is : numeric.p90 ≡ reading high
    pub mid_le : mid ≤ high
    pub probabilities_are : numeric.probabilities ≡ ratios f count counts
    pub one_each : length counts ≡ suc (length edges)
    pub all_counted : total counts ≡ count

  pub mean_exists : (ns : List ℕ) → IsOrdered ns → 0 < length ns → (m : ℕ) × (f.mean ns ≡ reading m)
  mean_exists [] s l = absurd (omega (arith, l))
  mean_exists (n ∷ ns) s l =
      let (b, e) = get_elem?-some (n ∷ ns) (length ns) (omega arith) in
      let (m, em, _) = laws.mean_range b n ns (All-le-last (n ∷ ns) (length ns) s refl e) in (m, em)

  abbrev the_numeric : (values counts : List ℕ) → Float → ℕ → Numeric
  the_numeric values counts mid high = record {
    avg = f.mean (sort values);
    p50 = mid;
    p90 = reading high;
    probabilities = ratios f (length values) counts;
  }

  numeric_of_lem :
      (edges : List Float) (values counts : List ℕ) (mid : Float) (high : ℕ)
      → count_buckets edges (sort values) (zeros (length edges + 1)) ≡ some counts
      → median f (sort values) ≡ some mid
      → get_elem? (sort values) (p90_index (length values)) ≡ some high
      → numeric_of f edges values ≡ some (the_numeric values counts mid high)
  unfolding numeric_of
  numeric_of_lem edges values counts mid high ec em eb = rw (numeric_of, ec, em, eb) refl

  pub numeric_of-AreStatistics :
      (edges : List Float) (values : List ℕ)
      → 0 < length values
      → All (λ n. n < half_range) values
      → (numeric : Numeric) × (numeric_of f edges values ≡ some numeric)
        × AreStatistics edges (length values) numeric
  numeric_of-AreStatistics edges values l small =
      let same = length-sort values in
      let l' : 0 < length (sort values) = rw same l in
      let (lo, hi, mid) = p90_index_range (length values) l in
      let (counts, ec, lc, tc) = count_buckets_all edges (sort values) in
      let (mean, emean) = mean_exists (sort values) (sort-IsOrdered values) l' in
      let (m, em, le) =
        median-HasMedian (sort values) (sort-IsOrdered values) l'
          (All-sort (λ n. n < half_range) values small) in
      let (b, eb) = get_elem?-some (sort values) (p90_index (length values)) (rw same hi) in
      (
        the_numeric values counts (reading m) b,
        numeric_of_lem edges values counts (reading m) b ec em eb,
        record {
          mean = mean;
          mid = m;
          high = b;
          counts = counts;
          mean_is = emean;
          mid_is = refl;
          high_is = refl;
          mid_le = le b (rw same eb);
          probabilities_are = refl;
          one_each = lc;
          all_counted = tc ∙ same;
        },
      )
