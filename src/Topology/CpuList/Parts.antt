-- ===== src/Topology/CpuList/Parts.antt =====
-- What the parts of a printed list look like.
use claw_tune.Base.{
  ℕ, ◌+◌, ◌≡◌, ◌≢◌, refl, Bool-cases, inl, inr, Bool, true, false, ◌&&◌, List, [], ◌∷◌, ◌++◌, All,
  if◌then◌else◌, ◌==◌, arith,
}
use claw_tune.Topology.Text.{Text, is_nil, strip_left, strip_right, strip, join, str}
use claw_tune.Topology.Text.Laws.{
  IsDigit, IsPlain, All-append, All-IsPlain, plain_no_space, str-IsDigit, str-ne-nil,
}
use claw_tune.Topology.Text.Splits.{Lacks}
use claw_tune.Topology.CpuList.{show_range, show_ranges}

pub not_nil : (s : Text) → s ≢ [] → is_nil s ≡ false
not_nil [] h = absurd (h refl)
not_nil (c ∷ s) h = refl

pub no_dash : (s : Text) → All IsDigit s → Lacks b'-' s
no_dash [] h = tt
no_dash (c ∷ s) h = (ground (arith, h.0), no_dash s h.1)

pub no_comma : (s : Text) → All IsPlain s → Lacks b',' s
no_comma [] h = tt
no_comma (c ∷ s) h = (ground (arith, h.0), no_comma s h.1)

pub append-ne-nil : (s t : Text) → s ≢ [] → s ++ t ≢ []
append-ne-nil [] t h e = h refl
append-ne-nil (c ∷ s) t h e = absurd cc

pub between-IsPlain : (a b : ℕ) → All IsPlain (str a ++ b'-' ∷ str b)
between-IsPlain a b =
    All-append IsPlain (str a) (b'-' ∷ str b) (All-IsPlain (str a) (str-IsDigit a))
      ((omega arith, omega arith), All-IsPlain (str b) (str-IsDigit b))

pub show_longer :
    (start previous cpu : ℕ) (cpus : List ℕ)
    → cpu ≡ previous + 1
    → show_ranges start previous (cpu ∷ cpus) ≡ show_ranges start cpu cpus
unfolding show_ranges
show_longer start previous cpu cpus h = ground (arith, h)

pub show_next :
    (start previous cpu : ℕ) (cpus : List ℕ)
    → cpu ≢ previous + 1
    → show_ranges start previous (cpu ∷ cpus) ≡ show_range start previous ∷ show_ranges cpu cpu cpus
unfolding show_ranges
show_next start previous cpu cpus h = ground (arith, h)

show_range-IsPlain : (start previous : ℕ) → All IsPlain (show_range start previous)
unfolding show_range
show_range-IsPlain start previous = elim (Bool-cases (start == previous)) [
  | inl q ↦ rw q (All-IsPlain (str start) (str-IsDigit start))
  | inr q ↦ rw q (between-IsPlain start previous)
]

pub show_ranges-Lacks :
    (cpus : List ℕ) (start previous : ℕ) → All (Lacks b',') (show_ranges start previous cpus)
show_ranges-Lacks [] start previous =
    unfold show_ranges in
    (no_comma (show_range start previous) (show_range-IsPlain start previous), tt)
show_ranges-Lacks (cpu ∷ cpus) start previous = elim (Bool-cases (cpu == previous + 1)) [
  | inl q ↦
      rw (show_longer start previous cpu cpus (ground (arith, q)))
        (show_ranges-Lacks cpus start cpu)
  | inr q ↦ rw (show_next start previous cpu cpus (λ x. ground (arith, q, x))) (
    no_comma (show_range start previous) (show_range-IsPlain start previous),
    show_ranges-Lacks cpus cpu cpu,
  )
]

-- A text that begins with a digit or a dash.
abbrev pub IsWord : Text → Type 0
IsWord [] = ⊥
IsWord (c ∷ s) = IsPlain c

IsWord-All : (s : Text) → All IsPlain s → s ≢ [] → IsWord s
IsWord-All [] h ne = ne refl
IsWord-All (c ∷ s) h ne = h.0

IsWord-append : (s t : Text) → IsWord s → IsWord (s ++ t)
IsWord-append [] t h = elim h [ ]
IsWord-append (c ∷ s) t h = h

pub IsWord-strip : (s : Text) → IsWord s → is_nil (strip s) ≡ false
unfolding strip strip_left strip_right
IsWord-strip [] h = elim h [ ]
IsWord-strip (c ∷ s) h =
    rw (plain_no_space c h, plain_no_space c h) (kept (is_nil (strip_right s)) (strip_right s))
  where
    kept : (b : Bool) (t : Text) → is_nil (if b && false then [] else c ∷ t) ≡ false
    kept true t = refl
    kept false t = refl

show_range-ne-nil : (start previous : ℕ) → show_range start previous ≢ []
unfolding show_range
show_range-ne-nil start previous = elim (Bool-cases (start == previous)) [
  | inl q ↦ rw q (str-ne-nil start)
  | inr q ↦ rw q (append-ne-nil (str start) (b'-' ∷ str previous) (str-ne-nil start))
]

show_range-IsWord : (start previous : ℕ) → IsWord (show_range start previous)
show_range-IsWord start previous =
    IsWord-All (show_range start previous) (show_range-IsPlain start previous)
      (show_range-ne-nil start previous)

join-IsWord : (p : Text) (ps : List Text) → IsWord p → IsWord (join b',' (p ∷ ps))
unfolding join
join-IsWord p [] h = h
join-IsWord p (q ∷ ps) h = IsWord-append p _ h

pub format-IsWord :
    (cpus : List ℕ) (start previous : ℕ) → IsWord (join b',' (show_ranges start previous cpus))
format-IsWord [] start previous =
    unfold show_ranges in join-IsWord _ [] (show_range-IsWord start previous)
format-IsWord (cpu ∷ cpus) start previous = elim (Bool-cases (cpu == previous + 1)) [
  | inl q ↦
      rw (show_longer start previous cpu cpus (ground (arith, q))) (format-IsWord cpus start cpu)
  | inr q ↦ rw (show_next start previous cpu cpus (λ x. ground (arith, q, x))) (
      join-IsWord (show_range start previous) (show_ranges cpu cpu cpus)
        (show_range-IsWord start previous))
]

pub show_ranges-ne-nil : (cpus : List ℕ) (start previous : ℕ) → show_ranges start previous cpus ≢ []
show_ranges-ne-nil [] start previous e = unfold show_ranges in absurd cc
show_ranges-ne-nil (cpu ∷ cpus) start previous e = elim (Bool-cases (cpu == previous + 1)) [
  | inl q ↦
      show_ranges-ne-nil cpus start cpu
        (cc (show_longer start previous cpu cpus (ground (arith, q)), e))
  | inr q ↦ absurd (cc (show_next start previous cpu cpus (λ x. ground (arith, q, x)), e))
]
