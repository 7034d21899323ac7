-- ===== src/Topology/CpuList.antt =====
-- `_parse_cpu_list` and `_format_cpu_list`. A set of CPUs is the ascending list of its elements.
pub mod Sets
pub mod Parts
pub mod RoundTrip
pub mod Canonical
use claw_tune.Base.{
  ℕ, zero, suc, ◌+◌, ◌-◌, Bool, true, false, Option, none, some, List, [], ◌∷◌, ◌++◌, ℤ, pos,
  negsuc, if◌then◌else◌, ltb, ◌==◌,
}
use claw_tune.Topology.Text.{Text, is_nil, strip, split, join, split_once, int, str}

-- `cpus.add(x)`
unfoldable pub add : ℕ → List ℕ → List ℕ
add x [] = x ∷ []
add x (y ∷ ys) =
    let rest = add x ys in if ltb x y then x ∷ y ∷ ys else if x == y then y ∷ ys else y ∷ rest

-- `cpus.update(range(start, start + count))`
unfoldable pub add_range : (start count : ℕ) → List ℕ → List ℕ
add_range start zero cpus = cpus
add_range start (suc count) cpus = add_range (suc start) count (add start cpus)

-- `int(start)`, `int(end)` and the tests of the two.
unfoldable pub add_between : Option ℤ → Option ℤ → List ℕ → Option (List ℕ)
add_between (some (pos start)) (some (pos end)) cpus =
    if ltb end start then none else some (add_range start (suc end - start) cpus)
add_between _ _ cpus = none

unfoldable pub add_one : Option ℤ → List ℕ → Option (List ℕ)
add_one (some (pos cpu)) cpus = some (add cpu cpus)
add_one _ cpus = none

-- One round of the loop, with the part stripped.
unfoldable pub parse_part : Text → List ℕ → Option (List ℕ)
parse_part part cpus = if is_nil part then none else elim (split_once b'-' part) [
  | some (start, end) ↦ add_between (int start) (int end) cpus
  | none ↦ add_one (int part) cpus
]

unfoldable pub parse_parts : List Text → List ℕ → Option (List ℕ)
parse_parts [] cpus = some cpus
parse_parts (raw ∷ parts) cpus = elim (parse_part (strip raw) cpus) [
  | none ↦ none
  | some cpus' ↦ parse_parts parts cpus'
]

unfoldable pub parse_cpu_list : Option Text → Option (List ℕ)
parse_cpu_list none = none
parse_cpu_list (some text) = if is_nil (strip text) then none else parse_parts (split b',' text) []

-- `str(start) if start == previous else f"{start}-{previous}"`
unfoldable pub show_range : (start previous : ℕ) → Text
show_range start previous =
    if start == previous then str start else str start ++ b'-' ∷ str previous

-- The loop over the CPUs behind `previous`, and the range that is open at its end.
unfoldable pub show_ranges : (start previous : ℕ) → List ℕ → List Text
show_ranges start previous [] = show_range start previous ∷ []
show_ranges start previous (cpu ∷ cpus) =
    let longer = show_ranges start cpu cpus in
    let next = show_ranges cpu cpu cpus in
    if cpu == previous + 1 then longer else show_range start previous ∷ next

unfoldable pub format_cpu_list : List ℕ → Text
format_cpu_list [] = []
format_cpu_list (cpu ∷ cpus) = join b',' (show_ranges cpu cpu cpus)

-- `range(start, start + count)`
unfoldable pub cpu_range : (start count : ℕ) → List ℕ
cpu_range start zero = []
cpu_range start (suc count) = start ∷ cpu_range (suc start) count

-- `_read_cpu_list`, from the text of the file and `os.cpu_count()`.
abbrev pub read_cpu_list : Option Text → (cpu_count : Option ℕ) → List ℕ
read_cpu_list text cpu_count = elim (parse_cpu_list text) [
  | some cpus ↦ cpus
  | none ↦ elim cpu_count [ none ↦ [] | some count ↦ cpu_range 0 count ]
]
