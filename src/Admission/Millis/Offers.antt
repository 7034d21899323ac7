-- ===== src/Admission/Millis/Offers.antt =====
-- The estimates that `_predicted_cpu_millis` looks at.
use claw_tune.Base.{
  ℕ, ◌≡◌, ◌≢◌, ◌↔◌, refl, ap, max, true, false, inl, inr, Option, none, some, String, arith,
  string_discrete, Option-cases,
}
use claw_tune.Admission.Millis.{
  overflow, skip, give, Numbers, Value, Fields, dict, number, text, entry, is_text, is_window,
  quantile, scaled, cpu_peak_cores, window_fits,
}

module _ (n : Numbers) where
  open n use {Number, is_finite, is_negative, is_500, ceil_millis}

  -- What the number makes the policy reserve: at least one millicore, or none where an OverflowError is
  -- raised.
  pub data Gives (x : Number) (o : Option ℕ) : Type 0 where
    rounds :
        (k : ℕ)
        → is_finite x ≡ some true
        → is_negative x ≡ false
        → ceil_millis x ≡ some k
        → o ≡ some (max 1 k)
        → Gives x o
    overflows :
        is_finite x ≡ some true
        → is_negative x ≡ false
        → ceil_millis x ≡ none
        → o ≡ none
        → Gives x o
    too_large : is_finite x ≡ none → o ≡ none → Gives x o

  -- The estimate of this name is available in cores, with a p90 that is such a number.
  pub record Offers (targets : Fields n) (name : String) (o : Option ℕ) : Type 0 where
    pub cpu : Fields n
    pub found : entry n name targets ≡ some (dict cpu)
    pub available : entry n "status" cpu ≡ some (text "available")
    pub in_cores : entry n "unit" cpu ≡ some (text "cores")
    pub x : Number
    pub p90 : entry n "p90" cpu ≡ some (number x)
    pub gives : Gives x o

  -- The peak was measured over 500 ms.
  abbrev pub HasWindow : Fields n → Type 0
  HasWindow call =
      (w : Number) × (entry n "cpu_peak_window_ms" call ≡ some (number w)) × (is_500 w ≡ true)

  pub is_text_iff :
      (s : String) (v : Option (Value n)) → (is_text n s v ≡ true) ↔ (v ≡ some (text s))
  unfolding is_text
  is_text_iff s (some (text t)) = elim (string_discrete t s) [
    | yes p ↦ (λ h. ap (λ x. some (text x)) p, λ h. ground (arith, p))
    | no other ↦ (λ h. absurd (ground (arith, h, other)), λ h. absurd (ground (arith, h, other)))
  ]
  is_text_iff s none = (λ h. absurd cc, λ h. absurd cc)
  is_text_iff s (some v) = (λ h. absurd cc, λ h. absurd cc)

  number_window :
      (v : Option (Value n))
      → is_window n v ≡ true
      → (w : Number) × (v ≡ some (number w)) × (is_500 w ≡ true)
  unfolding is_window
  number_window (some (number w)) h = (w, refl, h)
  number_window none h = absurd cc
  number_window (some v) h = absurd cc

  pub window_iff : (call : Fields n) → (window_fits n cpu_peak_cores call ≡ true) ↔ HasWindow call
  unfolding is_window
  window_iff call = (number_window (entry n "cpu_peak_window_ms" call), λ (w, e, h). rw e h)

  pub quantile-give :
      (v : Option (Value n)) (k : ℕ)
      → scaled n (quantile n v) ≡ give k
      → (x : Number) × (v ≡ some (number x)) × Gives x (some k)
  unfolding quantile
  quantile-give (some (number x)) k h = elim (Option-cases (ceil_millis x)) [
    | inl infinite ↦ absurd (ground (arith, infinite, h))
    | inr (c, e) ↦
        (x, refl, rounds c (ground (arith, h)) (ground (arith, h)) e (ground (arith, h, e)))
  ]
  quantile-give none k h = absurd cc
  quantile-give (some v) k h = absurd cc

  pub quantile-overflow :
      (v : Option (Value n))
      → scaled n (quantile n v) ≡ overflow
      → (x : Number) × (v ≡ some (number x)) × Gives x none
  unfolding quantile
  quantile-overflow (some (number x)) h = elim (Option-cases (is_finite x)) [
    | inl large ↦ (x, refl, too_large large refl)
    | inr (b, e) ↦ (
      x,
      refl,
      overflows (ground (arith, h, e)) (ground (arith, h, e)) (ground (arith, h, e)) refl,
    )
  ]
  quantile-overflow none h = absurd cc
  quantile-overflow (some v) h = absurd cc

  pub Gives-quantile :
      (x : Number) (o : Option ℕ) → Gives x o → scaled n (quantile n (some (number x))) ≢ skip
  unfolding quantile
  Gives-quantile x o (rounds k f g c e) h = ground (arith, f, g, c, h)
  Gives-quantile x o (overflows f g c e) h = ground (arith, f, g, c, h)
  Gives-quantile x o (too_large f e) h = ground (arith, f, h)
