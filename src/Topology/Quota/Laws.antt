-- ===== src/Topology/Quota/Laws.antt =====
-- The tightest quota.
use claw_tune.Base.{
  suc, ◌<◌, inl, inr, Bool-cases, ℤ, pos, negsuc, zero, Option, none, some, List, [], ◌∷◌, arith,
}
use claw_tune.Topology.Text.{Text, int}
use claw_tune.Topology.Caches.{is_same}
use claw_tune.Topology.Ticks.{Fraction}
use claw_tune.Topology.Quota.{
  max_word, fields, quota_of, quota_fields, read_quota, is_smaller, least_of, least_quota,
  read_effective_cpu_quota,
}

-- No quota, or a positive one.
abbrev pub IsQuota : Option Fraction → Type 0
IsQuota none = Unit
IsQuota (some q) = (0 < q.part) × (0 < q.whole)

quota_of-IsQuota : (quota period : Option ℤ) → IsQuota (quota_of quota period)
quota_of-IsQuota none period = tt
quota_of-IsQuota (some (pos zero)) period = tt
quota_of-IsQuota (some (negsuc n)) period = tt
quota_of-IsQuota (some (pos (suc n))) none = tt
quota_of-IsQuota (some (pos (suc n))) (some (pos zero)) = tt
quota_of-IsQuota (some (pos (suc n))) (some (negsuc k)) = tt
quota_of-IsQuota (some (pos (suc n))) (some (pos (suc k))) = (omega arith, omega arith)

quota_fields-IsQuota : (parts : List Text) → IsQuota (quota_fields parts)
quota_fields-IsQuota [] = tt
quota_fields-IsQuota (quota ∷ []) = tt
quota_fields-IsQuota (quota ∷ period ∷ x ∷ parts) = tt
quota_fields-IsQuota (quota ∷ period ∷ []) = elim (Bool-cases (is_same quota max_word)) [
  | inl q ↦ rw q tt
  | inr q ↦ rw q (quota_of-IsQuota (int quota) (int period))
]

read_quota-IsQuota : (raw : Option Text) → IsQuota (read_quota raw)
unfolding read_quota
read_quota-IsQuota none = tt
read_quota-IsQuota (some raw) = quota_fields-IsQuota (fields raw)

least_of-IsQuota : (best q : Option Fraction) → IsQuota best → IsQuota q → IsQuota (least_of best q)
least_of-IsQuota none none h k = tt
least_of-IsQuota (some b) none h k = h
least_of-IsQuota none (some q) h k = k
least_of-IsQuota (some b) (some q) h k = elim (Bool-cases (is_smaller q b)) [
  | inl e ↦ rw e k
  | inr e ↦ rw e h
]

least_quota-IsQuota :
    (best : Option Fraction) (files : List (Option Text))
    → IsQuota best
    → IsQuota (least_quota best files)
unfolding least_quota
least_quota-IsQuota best [] h = h
least_quota-IsQuota best (raw ∷ more) h =
    least_quota-IsQuota (least_of best (read_quota raw)) more
      (least_of-IsQuota best (read_quota raw) h (read_quota-IsQuota raw))

-- The quota, if there is one, is positive and has no zero below its line.
pub read_effective_cpu_quota-IsQuota :
    (files : List (Option Text)) → IsQuota (read_effective_cpu_quota files)
read_effective_cpu_quota-IsQuota files = least_quota-IsQuota none files tt
