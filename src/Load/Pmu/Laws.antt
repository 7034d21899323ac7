-- ===== src/Load/Pmu/Laws.antt =====
-- What `summarize_pmu_evidence` returns passes the validators of the contract.
use mathlib.Core.Path.{subst}
use claw_tune.Base.{
  ℕ, suc, ◌<◌, ◌≤◌, ◌≡◌, refl, ◌∙◌, ap, ◌==◌, ◌||◌, true, false, some, is_some, is_yes, String,
  string_discrete, List, [], ◌∷◌, All, length, get_elem?, if◌then◌else◌, arith,
}
use claw_tune.Dict.{Dict, get, put}
use claw_tune.Dict.Laws.{get-put_self, get-put_ne}
use claw_tune.KvTtl.Rank.{get_elem?-some}
use claw_tune.Load.{reading, Arithmetic, ArithmeticLaws, half_range}
use claw_tune.Load.Contract.{available, unavailable, is_statistic, in_order, is_blank}
use claw_tune.Load.Samples.{clean, sort, median, p90_index}
use claw_tune.Load.Samples.Laws.{IsOrdered, length-sort, sort-IsOrdered, All-sort, p90_index_range}
use claw_tune.Load.Samples.Total.{median-HasMedian, mean_exists}
use claw_tune.Superset.{has}
use claw_tune.Load.Pmu.{
  PmuTarget, PmuTarget-discrete, pmu_targets, pmu_units, pmu_definitions, PmuEstimate,
  valid_pmu_estimate, new_pmu_estimate, PmuTargets, has_all_pmu, has_pmu_mismatch,
  complete_pmu_targets, Row, row_of, pmu_available, pmu_unavailable, estimate_of, target_estimate,
  estimates_of, summarize_pmu_evidence,
}

-- How an estimate goes with the values, in order, that it was made from.
pub record Describes (target : PmuTarget) (count : ℕ) (e : PmuEstimate) : Type 0 where
  pub unit_is : e.unit ≡ pmu_units target
  pub definition_is : e.metric_definition ≡ pmu_definitions target
  pub count_is : e.evidence_count ≡ count
  pub status_is : e.status ≡ (if count == 0 then unavailable else available)
  pub valid : valid_pmu_estimate e ≡ true

pmu_available-accepted :
    (target : PmuTarget) (context : List String) (mean m b n : ℕ)
    → m ≤ b
    → let e = pmu_available target context (reading mean) (reading m) (reading b) (suc n) in
      (new_pmu_estimate e ≡ some e) × Describes target (suc n) e
unfolding new_pmu_estimate valid_pmu_estimate is_statistic in_order
pmu_available-accepted target context mean m b n h = (
  ground (arith, h),
  record {
    unit_is = refl;
    definition_is = refl;
    count_is = refl;
    status_is = ground arith;
    valid = ground (arith, h);
  },
)

pmu_unavailable-accepted :
    (target : PmuTarget)
    → (new_pmu_estimate (pmu_unavailable target) ≡ some (pmu_unavailable target))
      × Describes target 0 (pmu_unavailable target)
unfolding new_pmu_estimate valid_pmu_estimate is_statistic is_blank string_discrete
pmu_unavailable-accepted target = (
  refl,
  record { unit_is = refl; definition_is = refl; count_is = refl; status_is = refl; valid = refl },
)

module _ (f : Arithmetic) (laws : ArithmeticLaws f) where
  estimate_of-Describes :
      (target : PmuTarget) (context : List String) (vs : List ℕ)
      → IsOrdered vs
      → All (λ n. n < half_range) vs
      → (e : PmuEstimate) × (estimate_of f target context vs ≡ some e)
        × Describes target (length vs) e
  unfolding estimate_of
  estimate_of-Describes target context [] s small =
      let (ok, d) = pmu_unavailable-accepted target in (pmu_unavailable target, ok, d)
  estimate_of-Describes target context (v ∷ vs) s small =
      let (lo, hi, mid) = p90_index_range (suc (length vs)) (omega arith) in
      let (mean, emean) = mean_exists f laws (v ∷ vs) s (omega arith) in
      let (m, em, le) = median-HasMedian f laws (v ∷ vs) s (omega arith) small in
      let (b, eb) = get_elem?-some (v ∷ vs) (p90_index (length (v ∷ vs))) hi in
      let (ok, d) = pmu_available-accepted target context mean m b (length vs) (le b eb) in
      (made mean m b, step mean m b emean em eb ∙ ok, d)
    where
      made : (mean m b : ℕ) → PmuEstimate
      made mean m b =
          pmu_available target context (reading mean) (reading m) (reading b) (length (v ∷ vs))

      step :
          (mean m b : ℕ)
          → f.mean (v ∷ vs) ≡ reading mean
          → median f (v ∷ vs) ≡ some (reading m)
          → get_elem? (v ∷ vs) (p90_index (length (v ∷ vs))) ≡ some b
          → estimate_of f target context (v ∷ vs) ≡ new_pmu_estimate (made mean m b)
      step mean m b emean em eb = rw (estimate_of, em, eb, emean) refl

  -- The values of a target.
  abbrev pub target_values : Dict String Row → PmuTarget → List ℕ
  target_values evidence target = clean (row_of evidence target).values

  module _ (evidence : Dict String Row)
      (small : (t : PmuTarget) → All (λ n. n < half_range) (target_values evidence t)) where
    target_estimate-Describes :
        (t : PmuTarget)
        → (e : PmuEstimate) × (target_estimate f evidence t ≡ some e)
          × Describes t (length (target_values evidence t)) e
    unfolding target_estimate
    target_estimate-Describes t =
        let (e, q, d) =
          estimate_of-Describes t (row_of evidence t).context (sort (target_values evidence t))
            (sort-IsOrdered (target_values evidence t))
            (All-sort (λ n. n < half_range) (target_values evidence t) (small t)) in
        (e, q, subst (λ n. Describes t n e) (length-sort (target_values evidence t)) d)

    has_pmu_mismatch-put :
        (t : PmuTarget) (n : ℕ) (e : PmuEstimate) (estimates : PmuTargets)
        → Describes t n e
        → has_pmu_mismatch estimates ≡ false
        → has_pmu_mismatch (put PmuTarget-discrete t e estimates) ≡ false
    unfolding has_pmu_mismatch put
    has_pmu_mismatch-put t n e [] d h = ground (arith, d.unit_is, d.definition_is)
    has_pmu_mismatch-put t n e ((j, w) ∷ estimates) d h =
        ground (arith, d.unit_is, d.definition_is, has_pmu_mismatch-put t n e estimates d)

    -- What the loop leaves: the estimate of each of its targets.
    record Leaves (ts : List PmuTarget) (start estimates : PmuTargets) : Type 0 where
      there :
          (t : PmuTarget)
          → get PmuTarget-discrete t estimates ≡ (
              if has PmuTarget-discrete t ts
              then target_estimate f evidence t
              else get PmuTarget-discrete t start)
      matching : has_pmu_mismatch estimates ≡ false

    estimates_of-Leaves :
        (ts : List PmuTarget) (start : PmuTargets)
        → has_pmu_mismatch start ≡ false
        → (d : PmuTargets) × (estimates_of f evidence ts start ≡ some d) × Leaves ts start d
    unfolding estimates_of has
    estimates_of-Leaves [] start h = (start, refl, record { there = λ t. refl; matching = h })
    estimates_of-Leaves (t ∷ ts) start h =
        let (e, q, ds) = target_estimate-Describes t in
        let (d, r, left) =
          estimates_of-Leaves ts (put PmuTarget-discrete t e start)
            (has_pmu_mismatch-put t _ e start ds h) in
        (
          d,
          step e q ∙ r,
          record { there = λ j. lookup e d q j (left.there j); matching = left.matching },
        )
      where
        step :
            (e : PmuEstimate)
            → target_estimate f evidence t ≡ some e
            → estimates_of f evidence (t ∷ ts) start
              ≡ estimates_of f evidence ts (put PmuTarget-discrete t e start)
        step e q = rw (estimates_of, q) refl

        lookup :
            (e : PmuEstimate) (d : PmuTargets)
            → target_estimate f evidence t ≡ some e
            → (j : PmuTarget)
            → get PmuTarget-discrete j d ≡ (
                if has PmuTarget-discrete j ts
                then target_estimate f evidence j
                else get PmuTarget-discrete j (put PmuTarget-discrete t e start))
            → get PmuTarget-discrete j d ≡ (
                if is_yes (PmuTarget-discrete t j) || has PmuTarget-discrete j ts
                then target_estimate f evidence j
                else get PmuTarget-discrete j start)
        lookup e d q j g = elim (PmuTarget-discrete t j) [
          | yes p ↦ ground (arith, p, q, g, get-put_self PmuTarget-discrete t e start)
          | no n ↦ ground (arith, n, q, g, get-put_ne PmuTarget-discrete {j = j} {k = t} e start n)
        ]

    has_all_pmu-some :
        (ts : List PmuTarget) (d : PmuTargets)
        → ((t : PmuTarget) → is_some (get PmuTarget-discrete t d) ≡ true)
        → has_all_pmu ts d ≡ true
    unfolding has_all_pmu
    has_all_pmu-some [] d h = refl
    has_all_pmu-some (t ∷ ts) d h = rw (h t) (has_all_pmu-some ts d h)

has-pmu_targets : (t : PmuTarget) → has PmuTarget-discrete t pmu_targets ≡ true
unfolding has PmuTarget-discrete
has-pmu_targets PmuTarget.cycles = refl
has-pmu_targets PmuTarget.instructions = refl
has-pmu_targets PmuTarget.llc_read_accesses = refl
has-pmu_targets PmuTarget.llc_read_misses = refl
has-pmu_targets PmuTarget.ipc = refl
has-pmu_targets PmuTarget.llc_mpki = refl
has-pmu_targets PmuTarget.llc_miss_rate = refl
has-pmu_targets PmuTarget.llc_read_accesses_per_cpu_second = refl
has-pmu_targets PmuTarget.llc_read_misses_per_cpu_second = refl

-- `summarize_pmu_evidence` of evidence whose finite values that are not negative lie below 2^1023
-- returns a prediction. It passes the validators of the contract and has an estimate for each
-- target, with the target's unit and definition, that is valid, counts these values of the target
-- and is available just if there is one. The arithmetic keeps the laws of rounding.
pub summarize_pmu_evidence_complete :
    (f : Arithmetic) (laws : ArithmeticLaws f) (evidence : Dict String Row)
    (small : (t : PmuTarget) → All (λ n. n < half_range) (clean (row_of evidence t).values))
    → (estimates : PmuTargets) × (summarize_pmu_evidence f evidence ≡ some estimates)
      × (complete_pmu_targets estimates ≡ true)
      × ((t : PmuTarget)
          → (e : PmuEstimate) × (get PmuTarget-discrete t estimates ≡ some e)
            × Describes t (length (clean (row_of evidence t).values)) e)
unfolding summarize_pmu_evidence complete_pmu_targets has_pmu_mismatch
summarize_pmu_evidence_complete f laws evidence small =
    let (d, r, left) = estimates_of-Leaves f laws evidence small pmu_targets [] refl in
    let found : ((t : PmuTarget) → Found d t) = λ t. found_at d t (left.there t) in
    let ok = complete d left.matching found in (d, step d r ok, ok, found)
  where
    Found : PmuTargets → PmuTarget → Type 0
    Found d t =
        (e : PmuEstimate) × (get PmuTarget-discrete t d ≡ some e)
        × Describes t (length (clean (row_of evidence t).values)) e

    found_at :
        (d : PmuTargets) (t : PmuTarget)
        → get PmuTarget-discrete t d ≡ (
            if has PmuTarget-discrete t pmu_targets
            then target_estimate f evidence t
            else get PmuTarget-discrete t [])
        → Found d t
    found_at d t h =
        let (e, q, ds) = target_estimate-Describes f laws evidence small t in
        (e, ground (arith, h, q, has-pmu_targets t), ds)

    complete :
        (d : PmuTargets)
        → has_pmu_mismatch d ≡ false
        → ((t : PmuTarget) → Found d t)
        → complete_pmu_targets d ≡ true
    complete d m found = ground (
      arith,
      m,
      has_all_pmu-some f laws evidence small pmu_targets d (λ t. ap is_some (found t).1),
    )

    step :
        (d : PmuTargets)
        → estimates_of f evidence pmu_targets [] ≡ some d
        → complete_pmu_targets d ≡ true
        → summarize_pmu_evidence f evidence ≡ some d
    step d r ok = rw (summarize_pmu_evidence, r, ok) refl
