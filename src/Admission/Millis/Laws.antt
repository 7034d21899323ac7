-- ===== src/Admission/Millis/Laws.antt =====
-- What `_predicted_cpu_millis` returns.
use claw_tune.Base.{
  ℕ, ◌≡◌, ◌≢◌, ◌⊎◌, refl, sym, ◌∙◌, true, inl, inr, Option, none, some, arith, Bool-cases,
}
use claw_tune.Admission.Millis.{
  Attempt, overflow, skip, give, first_of_two, Numbers, Value, Fields, dict, number, text, entry,
  quantile, scaled, Target, cpu_peak_cores, cpu_avg_cores, target_millis, estimate_millis,
  millis_of, targets_of, predicted_cpu_millis, is_usable, target_name, window_fits,
}
use claw_tune.Admission.Millis.Offers.{
  Offers, HasWindow, is_text_iff, window_iff, quantile-give, quantile-overflow, Gives-quantile,
}

module _ (n : Numbers) where
  -- An estimate that is looked at: the tests of its record pass.
  record IsRead (call targets cpu : Fields n) (t : Target) : Type 0 where
    found : entry n (target_name t) targets ≡ some (dict cpu)
    available : entry n "status" cpu ≡ some (text "available")
    in_cores : entry n "unit" cpu ≡ some (text "cores")
    window : window_fits n t call ≡ true

  estimate_millis-IsRead :
      (call targets : Fields n) (t : Target) (v : Option (Value n))
      → entry n (target_name t) targets ≡ v
      → estimate_millis n call t v ≢ skip
      → (cpu : Fields n) × IsRead call targets cpu t
        × (estimate_millis n call t v ≡ scaled n (quantile n (entry n "p90" cpu)))
  unfolding estimate_millis is_usable
  estimate_millis-IsRead call targets t (some (dict cpu)) e h =
      elim (Bool-cases (is_usable n call t cpu)) [
        | inr bad ↦ absurd (h (ground (arith, bad)))
        | inl good ↦ (
          cpu,
          record {
            found = e;
            available = (is_text_iff n "available" (entry n "status" cpu)).0 (ground (arith, good));
            in_cores = (is_text_iff n "cores" (entry n "unit" cpu)).0 (ground (arith, good));
            window = ground (arith, good);
          },
          ground (arith, good),
        )
      ]
  estimate_millis-IsRead call targets t none e h = absurd (h refl)
  estimate_millis-IsRead call targets t (some v) e h = absurd (h refl)

  target-give :
      (call targets : Fields n) (t : Target) (k : ℕ)
      → target_millis n call targets t ≡ give k
      → (window_fits n t call ≡ true) × Offers n targets (target_name t) (some k)
  target-give call targets t k h =
      let (cpu, read, value) =
        estimate_millis-IsRead call targets t _ refl
          (λ (e : target_millis n call targets t ≡ skip). ground (arith, e, h)) in
      let (x, p, g) = quantile-give n (entry n "p90" cpu) k (sym value ∙ h) in
      (
        read.window,
        record {
          cpu = cpu;
          found = read.found;
          available = read.available;
          in_cores = read.in_cores;
          x = x;
          p90 = p;
          gives = g;
        },
      )

  target-overflow :
      (call targets : Fields n) (t : Target)
      → target_millis n call targets t ≡ overflow
      → (window_fits n t call ≡ true) × Offers n targets (target_name t) none
  target-overflow call targets t h =
      let (cpu, read, value) =
        estimate_millis-IsRead call targets t _ refl
          (λ (e : target_millis n call targets t ≡ skip). ground (arith, e, h)) in
      let (x, p, g) = quantile-overflow n (entry n "p90" cpu) (sym value ∙ h) in
      (
        read.window,
        record {
          cpu = cpu;
          found = read.found;
          available = read.available;
          in_cores = read.in_cores;
          x = x;
          p90 = p;
          gives = g;
        },
      )

  target-skip :
      (call targets : Fields n) (t : Target) (o : Option ℕ)
      → target_millis n call targets t ≡ skip
      → window_fits n t call ≡ true
      → ¬ Offers n targets (target_name t) o
  unfolding estimate_millis is_usable
  target-skip call targets t o h window f =
      let value : target_millis n call targets t ≡ scaled n (quantile n (some (number f.x))) =
        rw
          (
            f.found,
            (is_text_iff n "available" (entry n "status" f.cpu)).1 f.available,
            (is_text_iff n "cores" (entry n "unit" f.cpu)).1 f.in_cores,
            window,
            f.p90,
          )
          refl in
      Gives-quantile n f.x o f.gives (sym value ∙ h)

  -- What is reserved for the prediction of a tool call, or none for an OverflowError.
  pub data Reserved (call targets : Fields n) (o : Option ℕ) : Type 0 where
    by_peak : HasWindow n call → Offers n targets "cpu_peak_cores" o → Reserved call targets o
    by_average :
        ¬ (HasWindow n call × (p : Option ℕ) × Offers n targets "cpu_peak_cores" p)
        → Offers n targets "cpu_avg_cores" o
        → Reserved call targets o
    by_default :
        ¬ (HasWindow n call × (p : Option ℕ) × Offers n targets "cpu_peak_cores" p)
        → ¬ ((p : Option ℕ) × Offers n targets "cpu_avg_cores" p)
        → o ≡ some 1000
        → Reserved call targets o

  Attempt-cases :
      {A : Type 0} (a : Attempt A) → (a ≡ overflow) ⊎ ((a ≡ skip) ⊎ ((x : A) × (a ≡ give x)))
  Attempt-cases overflow = inl refl
  Attempt-cases skip = inr (inl refl)
  Attempt-cases (give x) = inr (inr (x, refl))

  by_average_of :
      (call targets : Fields n)
      → ¬ (HasWindow n call × (p : Option ℕ) × Offers n targets "cpu_peak_cores" p)
      → Reserved call targets
          (first_of_two n skip (target_millis n call targets cpu_avg_cores) 1000)
  by_average_of call targets no_peak =
      elim (Attempt-cases (target_millis n call targets cpu_avg_cores)) [
        | inl big ↦ rw big (by_average no_peak (target-overflow call targets cpu_avg_cores big).1)
        | inr rest ↦ elim rest [
          | inl no_average ↦ rw no_average (
              by_default no_peak
                (λ (p, f). target-skip call targets cpu_avg_cores p no_average refl f) refl)
          | inr (k, given) ↦
              rw given (by_average no_peak (target-give call targets cpu_avg_cores k given).1)
        ]
      ]

  first_of_two-Reserved :
      (call targets : Fields n)
      → Reserved call targets (
          first_of_two n
            (target_millis n call targets cpu_peak_cores)
            (target_millis n call targets cpu_avg_cores)
            1000)
  first_of_two-Reserved call targets =
      elim (Attempt-cases (target_millis n call targets cpu_peak_cores)) [
        | inl big ↦
            let (w, f) = target-overflow call targets cpu_peak_cores big in
            rw big (by_peak ((window_iff n call).0 w) f)
        | inr rest ↦ elim rest [
          | inl no_peak ↦ rw no_peak (
              by_average_of call targets (λ (w, p, f).
                target-skip call targets cpu_peak_cores p no_peak ((window_iff n call).1 w) f))
          | inr (k, given) ↦
              let (w, f) = target-give call targets cpu_peak_cores k given in
              rw given (by_peak ((window_iff n call).0 w) f)
        ]
      ]

  -- For the prediction of a tool call with a dict of targets: the p90 of the peak over 500 ms decides if
  -- it is an available number of cores that is finite and not negative, or an int too large for a
  -- float; else the p90 of the average, if it is such a number; else one core is reserved. The number
  -- that decides reserves its millicores rounded up, at least one, or raises OverflowError exactly if it
  -- or its product by 1000 is too large for a float.
  pub predicted_cpu_millis-Reserved :
      (call targets : Fields n)
      → entry n "scope" call ≡ some (text "tool_call")
      → entry n "targets" call ≡ some (dict targets)
      → Reserved call targets (predicted_cpu_millis n (dict call))
  unfolding predicted_cpu_millis millis_of targets_of
  predicted_cpu_millis-Reserved call targets scope has =
      rw ((is_text_iff n "tool_call" (entry n "scope" call)).1 scope, has)
        (first_of_two-Reserved call targets)
