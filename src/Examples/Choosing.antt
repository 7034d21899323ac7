-- ===== src/Examples/Choosing.antt =====
-- Predictions and the millicores that they reserve.
use claw_tune.Base.{◌≡◌, refl, some, none, string_discrete}
use claw_tune.Admission.Millis.{
  Fields, number, text, dict, end, field, entry, is_text, predicted_cpu_millis, millis_of,
  targets_of, estimate_millis, is_usable, quantile,
}
use claw_tune.Admission.Millis.Laws.{Reserved, predicted_cpu_millis-Reserved}
use claw_tune.Examples.Waits.{whole}

-- The peak has another window, so the average counts.
abbrev targets : Fields whole
targets =
    field "cpu_peak_cores"
      (dict (
        field "status" (text "available")
          (field "unit" (text "cores") (field "p90" (number 5) end))))
      (field "cpu_avg_cores"
        (dict (
          field "status" (text "available")
            (field "unit" (text "cores") (field "p90" (number 3) end))))
        end)

abbrev call : Fields whole
call =
    field "scope" (text "tool_call")
      (field "cpu_peak_window_ms" (number 100) (field "targets" (dict targets) end))

scope : entry whole "scope" call ≡ some (text "tool_call")
unfolding entry string_discrete
scope = refl

has : entry whole "targets" call ≡ some (dict targets)
unfolding entry string_discrete
has = refl

predicted_cpu_millis-Reserved_example :
    Reserved whole call targets (predicted_cpu_millis whole (dict call))
predicted_cpu_millis-Reserved_example = predicted_cpu_millis-Reserved whole call targets scope has

-- The product of the p90 is too large.
abbrev huge : Fields whole
huge =
    field "cpu_avg_cores"
      (dict (
        field "status" (text "available")
          (field "unit" (text "cores") (field "p90" (number 700) end))))
      end

overflow_test :
    predicted_cpu_millis whole
      (dict (field "scope" (text "tool_call") (field "targets" (dict huge) end)))
    ≡ none
unfolding predicted_cpu_millis millis_of targets_of estimate_millis is_usable quantile is_text entry
    string_discrete
overflow_test = refl
