-- ===== src/Topology/CpuList/RoundTrip.antt =====
-- Lists of CPUs that are printed and read again.
use mathlib.Core.List.{append_assoc, append-nil}
use claw_tune.Base.{
  ℕ, zero, suc, ◌+◌, ◌-◌, ◌<◌, ◌≡◌, ◌≢◌, refl, ap, ◌∙◌, ltb, Bool-cases, inl, inr, true, false,
  some, List, [], ◌∷◌, ◌++◌, ◌==◌, arith,
}
use claw_tune.Topology.Text.{Text, strip, join, str}
use claw_tune.Topology.Text.Laws.{
  All-append, All-IsPlain, strip-plain, str-IsDigit, str-ne-nil, int-str,
}
use claw_tune.Topology.Text.Splits.{split-join, split_once-Lacks, split_once-first}
use claw_tune.Topology.CpuList.{
  add_between, add_one, parse_part, parse_parts, parse_cpu_list, show_range, show_ranges,
  format_cpu_list,
}
use claw_tune.Topology.CpuList.Sets.{
  IsFrom, IsCpuSet, IsBelow, IsBelow-mono, range, range-IsBelow, range_last, add_range-append,
  add_last,
}
use claw_tune.Topology.CpuList.Parts.{
  not_nil, no_dash, append-ne-nil, between-IsPlain, show_longer, show_next, show_ranges-Lacks,
  IsWord-strip, format-IsWord, show_ranges-ne-nil,
}

parse_one :
    (cpu : ℕ) (cpus : List ℕ)
    → IsBelow cpu cpus
    → parse_part (strip (str cpu)) cpus ≡ some (cpus ++ cpu ∷ [])
unfolding parse_part add_one
parse_one cpu cpus h =
    rw
      (
        strip-plain (str cpu) (All-IsPlain (str cpu) (str-IsDigit cpu)),
        not_nil (str cpu) (str-ne-nil cpu),
        split_once-Lacks b'-' (str cpu) (no_dash (str cpu) (str-IsDigit cpu)),
        strip-plain (str cpu) (All-IsPlain (str cpu) (str-IsDigit cpu)),
        int-str cpu,
      )
      (ap some (add_last cpu cpus h))

parse_between :
    (a count : ℕ) (cpus : List ℕ)
    → IsBelow a cpus
    → parse_part (strip (str a ++ b'-' ∷ str (a + count))) cpus ≡ some (cpus ++ range a (suc count))
unfolding parse_part add_between
parse_between a count cpus h =
    let order : ltb (a + count) a ≡ false = ground arith in
    let size : suc (a + count) - a ≡ suc count = omega arith in
    rw
      (
        strip-plain _ (between-IsPlain a (a + count)),
        not_nil (str a ++ b'-' ∷ str (a + count))
            (append-ne-nil (str a) (b'-' ∷ str (a + count)) (str-ne-nil a)),
        split_once-first b'-' (str a) (str (a + count)) (no_dash (str a) (str-IsDigit a)),
        int-str a,
        int-str (a + count),
        order,
        size,
      )
      (ap some (add_range-append a (suc count) cpus h))

parse-show_range :
    (a count : ℕ) (cpus : List ℕ)
    → IsBelow a cpus
    → parse_part (strip (show_range a (a + count))) cpus ≡ some (cpus ++ range a (suc count))
unfolding show_range
parse-show_range a zero cpus h =
    let same : (a == a + 0) ≡ true = ground arith in rw same (parse_one a cpus h)
parse-show_range a (suc count) cpus h =
    let other : (a == a + suc count) ≡ false = ground arith in
    rw other (parse_between a (suc count) cpus h)

parse_first :
    (raw : Text) (parts : List Text) (cpus cpus' : List ℕ)
    → parse_part (strip raw) cpus ≡ some cpus'
    → parse_parts (raw ∷ parts) cpus ≡ parse_parts parts cpus'
unfolding parse_parts
parse_first raw parts cpus cpus' h = rw (parse_parts, h) refl

parse_last :
    (raw : Text) (cpus cpus' : List ℕ)
    → parse_part (strip raw) cpus ≡ some cpus'
    → parse_parts (raw ∷ []) cpus ≡ some cpus'
unfolding parse_parts
parse_last raw cpus cpus' h = rw (parse_parts, h) refl

-- The parts of an ascending list that begins with the CPUs from `start` to `previous`.
parse-show_ranges :
    (cpus : List ℕ) (start count previous : ℕ) (before : List ℕ)
    → previous ≡ start + count
    → IsBelow start before
    → IsFrom (suc previous) cpus
    → parse_parts (show_ranges start previous cpus) before
      ≡ some (before ++ (range start (suc count) ++ cpus))
parse-show_ranges [] start count previous before e b f =
    rw (append-nil, e)
      (unfold show_ranges in
        parse_last (show_range start (start + count)) before _
          (parse-show_range start count before b))
parse-show_ranges (cpu ∷ cpus) start count previous before e b f =
    elim (Bool-cases (cpu == previous + 1)) [
      | inl q ↦
          let next : cpu ≡ previous + 1 = ground (arith, q) in
          rw (show_longer start previous cpu cpus next) (
            parse-show_ranges cpus start (suc count) cpu before (omega (arith, e, next)) b f.1
            ∙ ap (λ xs. some (before ++ xs))
                (range_last start (suc count) cpu cpus (omega (arith, e, next))))
      | inr q ↦
          let after = before ++ range start (suc count) in
          rw
            (
              show_next start previous cpu cpus (λ x. ground (arith, q, x)),
              parse_first (show_range start previous) (show_ranges cpu cpu cpus) before after
                  (rw e (parse-show_range start count before b)),
            )
            (parse-show_ranges cpus cpu 0 cpu after (omega arith)
                (All-append (λ x. x < cpu) before (range start (suc count))
                  (IsBelow-mono start cpu before (omega (arith, f.0, e)) b)
                  (range-IsBelow start (suc count) cpu (omega (arith, f.0, e))))
                f.1
              ∙ ap some (append_assoc before (range start (suc count)) (cpu ∷ cpus)))
    ]

-- A set of CPUs that is not empty is read back from its print.
pub parse_cpu_list-format_cpu_list :
    (cpus : List ℕ)
    → IsCpuSet cpus
    → cpus ≢ []
    → parse_cpu_list (some (format_cpu_list cpus)) ≡ some cpus
unfolding parse_cpu_list format_cpu_list
parse_cpu_list-format_cpu_list [] h ne = absurd (ne refl)
parse_cpu_list-format_cpu_list (cpu ∷ cpus) h ne =
    rw
      (
        IsWord-strip (join b',' (show_ranges cpu cpu cpus)) (format-IsWord cpus cpu cpu),
        split-join b',' (show_ranges cpu cpu cpus) (show_ranges-ne-nil cpus cpu cpu)
            (show_ranges-Lacks cpus cpu cpu),
      )
      (parse-show_ranges cpus cpu 0 cpu [] (omega arith) tt h.1)
