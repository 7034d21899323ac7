-- ===== src/Admission/Millis.antt =====
-- services/sidecar/src/clawtune_sidecar/policies/concurrency.py, `_predicted_cpu_millis`: the
-- millicores that the policy reserves for a prediction.
pub mod Offers
pub mod Laws
use claw_tune.Base.{
  ℕ, max, Bool, true, false, ◌||◌, ◌&&◌, not, Option, none, some, String, List, is_yes,
  if◌then◌else◌, string_discrete,
}

-- What the policy asks of Python's numbers. `Number` holds the ints and the floats. `is_finite` is
-- `math.isfinite(value)`, none for an int that is too large for a float; `ceil_millis` is
-- `math.ceil(value * 1_000.0)` at a finite value that is not negative, none where the product is too
-- large for a float. Both raise OverflowError there.
pub record Numbers : Type 1 where
  pub Number : Type 0
  pub is_finite : Number → Option Bool
  pub is_negative : Number → Bool
  pub is_500 : Number → Bool
  pub ceil_millis : Number → Option ℕ

-- A part of a round of the loop: it raises OverflowError, continues with the next round, or has a value.
pub data Attempt (A : Type 0) : Type 0 where
  overflow skip : Attempt A
  give : A → Attempt A

pub data Target : Type 0 where
  cpu_peak_cores cpu_avg_cores : Target

abbrev pub target_name : Target → String
target_name cpu_peak_cores = "cpu_peak_cores"
target_name cpu_avg_cores = "cpu_avg_cores"

module _ (n : Numbers) where
  open n use {Number}

  -- A value of a dumped prediction. `other` is `None` or a list.
  mutual
    pub data Value : Type 0 where
      other : Value
      boolean : Bool → Value
      number : Number → Value
      text : String → Value
      dict : Fields → Value

    pub data Fields : Type 0 where
      end : Fields
      field : String → Value → Fields → Fields

  -- `value.get(key)` on a dict; any other value has no such entry.
  unfoldable pub entry : String → Fields → Option Value
  entry key end = none
  entry key (field k v rest) = if is_yes (string_discrete k key) then some v else entry key rest

  -- `value == text`
  unfoldable pub is_text : String → Option Value → Bool
  is_text s (some (text t)) = is_yes (string_discrete t s)
  is_text s _ = false

  -- `value == 500`
  unfoldable pub is_window : Option Value → Bool
  is_window (some (number x)) = n.is_500 x
  is_window _ = false

  -- The last two tests of a number, the first of which may raise.
  abbrev pub checked : Number → Option Bool → Attempt Number
  checked x none = overflow
  checked x (some finite) = if not finite || n.is_negative x then skip else give x

  -- `value` is an int or a float, is no bool, is finite and is not negative.
  unfoldable pub quantile : Option Value → Attempt Number
  quantile (some (number x)) = checked x (n.is_finite x)
  quantile _ = skip

  -- The peak counts only where its window is 500 ms.
  abbrev pub window_fits : Target → Fields → Bool
  window_fits cpu_peak_cores call = is_window (entry "cpu_peak_window_ms" call)
  window_fits cpu_avg_cores call = true

  abbrev pub at_least_one : Option ℕ → Attempt ℕ
  at_least_one none = overflow
  at_least_one (some k) = give (max 1 k)

  -- `max(1, math.ceil(value * 1_000.0))`
  abbrev pub scaled : Attempt Number → Attempt ℕ
  scaled overflow = overflow
  scaled skip = skip
  scaled (give x) = at_least_one (n.ceil_millis x)

  -- An estimate that is available, in cores and over the right window.
  unfoldable pub is_usable : Fields → Target → Fields → Bool
  is_usable call target cpu =
      is_text "available" (entry "status" cpu)
      && (is_text "cores" (entry "unit" cpu) && window_fits target call)

  unfoldable pub estimate_millis : Fields → Target → Option Value → Attempt ℕ
  estimate_millis call target (some (dict cpu)) =
      if is_usable call target cpu then scaled (quantile (entry "p90" cpu)) else skip
  estimate_millis call target _ = skip

  -- One round of the loop over the targets.
  abbrev pub target_millis : Fields → Fields → Target → Attempt ℕ
  target_millis call targets target =
      estimate_millis call target (entry (target_name target) targets)

  -- The first round that does not continue decides; none where it raises OverflowError.
  abbrev pub first_of_two : Attempt ℕ → Attempt ℕ → ℕ → Option ℕ
  first_of_two overflow b d = none
  first_of_two (give a) b d = some a
  first_of_two skip overflow d = none
  first_of_two skip (give b) d = some b
  first_of_two skip skip d = some d

  -- `call_prediction.get("targets", {})`, when it is a dict.
  unfoldable pub targets_of : Option Value → Option Fields
  targets_of none = some end
  targets_of (some (dict targets)) = some targets
  targets_of (some _) = none

  -- The loop over the peak and the average.
  unfoldable pub millis_of : Fields → Option Fields → Option ℕ
  millis_of call none = some 1000
  millis_of call (some targets) =
      first_of_two (target_millis call targets cpu_peak_cores)
        (target_millis call targets cpu_avg_cores) 1000

  -- `_predicted_cpu_millis` on what `model_dump` returns, or on a value that has no such method; none
  -- where it raises OverflowError.
  unfoldable pub predicted_cpu_millis : Value → Option ℕ
  predicted_cpu_millis (dict call) =
      if is_text "tool_call" (entry "scope" call)
      then millis_of call (targets_of (entry "targets" call))
      else some 1000
  predicted_cpu_millis _ = some 1000
