-- ===== src/Topology/Quota.antt =====
-- The CPU quota of a chain of cgroups and the options of the capacity. A quota is the fraction of its two
-- numbers, before they are divided to a float.
pub mod Laws
use claw_tune.Base.{
  ℕ, zero, suc, ◌*◌, ℤ, pos, negsuc, Bool, true, false, not, ◌&&◌, ◌||◌, Option, none, some, List,
  [], ◌∷◌, if◌then◌else◌, ltb,
}
use Prim.Native.Nat.{◌^◌}
use claw_tune.KvTtl.{Float, fin, zero_float, float_lt, float_le, is_finite}
use claw_tune.Topology.Text.{Text, is_nil, is_space, push, int}
use claw_tune.Topology.Caches.{is_same}
use claw_tune.Topology.Ticks.{Fraction}

-- The parts between any two spaces.
unfoldable pub split_spaces : Text → List Text
split_spaces [] = [] ∷ []
split_spaces (c ∷ s) = let parts = split_spaces s in if is_space c then [] ∷ parts else push c parts

unfoldable pub drop_empty : List Text → List Text
drop_empty [] = []
drop_empty (p ∷ ps) = let rest = drop_empty ps in if is_nil p then rest else p ∷ rest

-- `text.split()`
abbrev pub fields : Text → List Text
fields text = drop_empty (split_spaces text)

abbrev pub max_word : Text
max_word = b'm' ∷ b'a' ∷ b'x' ∷ []

-- `quota / period`, where both are positive.
abbrev pub quota_of : Option ℤ → Option ℤ → Option Fraction
quota_of (some (pos (suc quota))) (some (pos (suc period))) =
    some (record { part = suc quota; whole = suc period })
quota_of _ _ = none

abbrev pub quota_fields : List Text → Option Fraction
quota_fields (quota ∷ period ∷ []) =
    if is_same quota max_word then none else quota_of (int quota) (int period)
quota_fields _ = none

-- What a `cpu.max` file adds to `quotas`.
unfoldable pub read_quota : Option Text → Option Fraction
read_quota none = none
read_quota (some raw) = quota_fields (fields raw)

abbrev pub is_smaller : Fraction → Fraction → Bool
is_smaller a b = ltb (a.part * b.whole) (b.part * a.whole)

-- `min(quotas)`, one file after the other, with the least so far.
abbrev pub least_of : Option Fraction → Option Fraction → Option Fraction
least_of best none = best
least_of none (some q) = some q
least_of (some best) (some q) = if is_smaller q best then some q else some best

unfoldable pub least_quota : Option Fraction → List (Option Text) → Option Fraction
least_quota best [] = best
least_quota best (raw ∷ more) = least_quota (least_of best (read_quota raw)) more

-- `_read_effective_cpu_quota`, from the texts of the `cpu.max` files.
abbrev pub read_effective_cpu_quota : List (Option Text) → Option Fraction
read_effective_cpu_quota files = least_quota none files

abbrev pub one_float : Float
one_float = fin (pos (2 ^ 1074))

-- Which `ValueError`.
pub data CapacityError : Type 0 where
  bad_ratio bad_reserve bad_budget : CapacityError

abbrev pub is_negative : Option ℤ → Bool
is_negative (some (negsuc n)) = true
is_negative _ = false

abbrev pub is_bad_budget : Option Float → Bool
is_bad_budget none = false
is_bad_budget (some cores) = not (is_finite cores) || float_lt cores zero_float

-- `_validate_capacity_options`
unfoldable pub validate_capacity_options : Float → Option ℤ → Option Float → Option CapacityError
validate_capacity_options ratio reserve_cores cpu_budget_cores =
    if not (is_finite ratio) || not (float_le zero_float ratio && float_le ratio one_float)
    then some bad_ratio
    else if is_negative reserve_cores
    then some bad_reserve
    else if is_bad_budget cpu_budget_cores
    then some bad_budget
    else none
