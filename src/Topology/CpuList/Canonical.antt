-- ===== src/Topology/CpuList/Canonical.antt =====
-- What the parser of CPU lists returns.
use mathlib.Core.Path.{subst}
use claw_tune.Base.{
  ℕ, suc, ◌-◌, ◌≡◌, ◌≢◌, ◌==◌, refl, ltb, Bool-cases, Option-cases, inl, inr, ℤ, pos, negsuc,
  Option, none, some, List, [], ◌∷◌, arith,
}
use claw_tune.Topology.Text.{Text, is_nil, strip, split, split_once, int}
use claw_tune.Topology.CpuList.{
  add, add_range, add_between, add_one, parse_part, parse_parts, parse_cpu_list, format_cpu_list,
}
use claw_tune.Topology.CpuList.Sets.{
  IsCpuSet, add-IsCpuSet, add-ne-nil, add_range-IsCpuSet, add_range-ne-nil,
}
use claw_tune.Topology.CpuList.RoundTrip.{parse_cpu_list-format_cpu_list}

-- A set that has an element.
abbrev pub IsFilled : List ℕ → Type 0
IsFilled cpus = IsCpuSet cpus × (cpus ≢ [])

-- A result, if there is one, is such a set.
abbrev IsFilledIf : Option (List ℕ) → Type 0
IsFilledIf none = Unit
IsFilledIf (some cpus) = IsFilled cpus

add-IsFilled : (x : ℕ) (cpus : List ℕ) → IsCpuSet cpus → IsFilled (add x cpus)
add-IsFilled x cpus h = (add-IsCpuSet x cpus h, add-ne-nil x cpus)

add_one-IsFilled : (o : Option ℤ) (cpus : List ℕ) → IsCpuSet cpus → IsFilledIf (add_one o cpus)
unfolding add_one
add_one-IsFilled none cpus h = tt
add_one-IsFilled (some (pos n)) cpus h = add-IsFilled n cpus h
add_one-IsFilled (some (negsuc n)) cpus h = tt

add_range-IsFilled :
    (start count : ℕ) (cpus : List ℕ) → IsCpuSet cpus → IsFilled (add_range start (suc count) cpus)
unfolding add_range
add_range-IsFilled start count cpus h = (
  add_range-IsCpuSet (suc start) count (add start cpus) (add-IsCpuSet start cpus h),
  add_range-ne-nil (suc start) count (add start cpus) (add-ne-nil start cpus),
)

add_between-IsFilled :
    (a b : Option ℤ) (cpus : List ℕ) → IsCpuSet cpus → IsFilledIf (add_between a b cpus)
unfolding add_between
add_between-IsFilled (some (pos start)) (some (pos end)) cpus h =
    elim (Bool-cases (ltb end start)) [
      | inl q ↦ rw q tt
      | inr q ↦
          let e : suc end - start ≡ suc (end - start) = ground (arith, q) in
          rw (q, e) (add_range-IsFilled start (end - start) cpus h)
    ]
add_between-IsFilled none b cpus h = tt
add_between-IsFilled (some (negsuc start)) b cpus h = tt
add_between-IsFilled (some (pos start)) none cpus h = tt
add_between-IsFilled (some (pos start)) (some (negsuc end)) cpus h = tt

parse_part-IsFilled :
    (part : Text) (cpus : List ℕ) → IsCpuSet cpus → IsFilledIf (parse_part part cpus)
unfolding parse_part
parse_part-IsFilled part cpus h = elim (Bool-cases (is_nil part)) [
  | inl q ↦ rw q tt
  | inr q ↦ elim (Option-cases (split_once b'-' part)) [
    | inl e ↦ rw (q, e) (add_one-IsFilled (int part) cpus h)
    | inr ((start, end), e) ↦ rw (q, e) (add_between-IsFilled (int start) (int end) cpus h)
  ]
]

parse_parts-IsFilled :
    (raw : Text) (parts : List Text) (cpus : List ℕ)
    → IsCpuSet cpus
    → IsFilledIf (parse_parts (raw ∷ parts) cpus)
unfolding parse_parts
parse_parts-IsFilled raw parts cpus h =
    by_first parts (parse_part (strip raw) cpus) (parse_part-IsFilled (strip raw) cpus h)
  where
    by_first :
        (parts : List Text) (first : Option (List ℕ))
        → IsFilledIf first
        → IsFilledIf (elim first [ none ↦ none | some cpus' ↦ parse_parts parts cpus' ])
    by_first parts none k = tt
    by_first [] (some cpus') k = k
    by_first (raw' ∷ parts') (some cpus') k =
        by_first parts' (parse_part (strip raw') cpus') (parse_part-IsFilled (strip raw') cpus' k.0)

split-cons : (sep : ℕ) (s : Text) → (p : Text) × (ps : List Text) × (split sep s ≡ p ∷ ps)
unfolding split
split-cons sep [] = ([], [], refl)
split-cons sep (c ∷ s) = elim (Bool-cases (c == sep)) [
  | inl q ↦ rw q ([], split sep s, refl)
  | inr q ↦ let (p, ps, e) = split-cons sep s in rw (q, e) (c ∷ p, ps, refl)
]

-- The parser returns sets with an element: each list that it accepts names a CPU.
parse_cpu_list-IsFilled : (text : Option Text) → IsFilledIf (parse_cpu_list text)
unfolding parse_cpu_list
parse_cpu_list-IsFilled none = tt
parse_cpu_list-IsFilled (some text) = elim (Bool-cases (is_nil (strip text))) [
  | inl q ↦ rw q tt
  | inr q ↦ let (p, ps, e) = split-cons b',' text in rw (q, e) (parse_parts-IsFilled p ps [] tt)
]

-- The set that is parsed, or none.
pub parse_cpu_list-IsCpuSet :
    (text : Option Text) → IsCpuSet (elim (parse_cpu_list text) [ none ↦ [] | some cpus ↦ cpus ])
parse_cpu_list-IsCpuSet text = by_result (parse_cpu_list text) (parse_cpu_list-IsFilled text)
  where
    by_result :
        (o : Option (List ℕ)) → IsFilledIf o → IsCpuSet (elim o [ none ↦ [] | some cpus ↦ cpus ])
    by_result none h = tt
    by_result (some cpus) h = h.0

-- Whatever text the parser accepts, the print of its result is read as the same set.
pub parse_cpu_list_again :
    (text : Option Text) (cpus : List ℕ)
    → parse_cpu_list text ≡ some cpus
    → IsFilled cpus × (parse_cpu_list (some (format_cpu_list cpus)) ≡ some cpus)
parse_cpu_list_again text cpus e =
    let h : IsFilled cpus = subst IsFilledIf e (parse_cpu_list-IsFilled text) in
    (h, parse_cpu_list-format_cpu_list cpus h.0 h.1)
