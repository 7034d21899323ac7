-- ===== src/Topology/CpuList/Sets.antt =====
-- Sets of CPUs as ascending lists.
use mathlib.Core.List.{append_assoc, append-nil}
use claw_tune.Base.{
  ℕ, zero, suc, ◌+◌, ◌≤◌, ◌<◌, ◌≡◌, ◌≢◌, refl, sym, ap, ◌∙◌, ltb, Bool-cases, inl, inr, List, [],
  ◌∷◌, ◌++◌, All, ◌==◌, arith,
}
use claw_tune.Topology.Text.Laws.{All-append}
use claw_tune.Topology.CpuList.{add, add_range}

-- Ascending, with nothing below `least`.
abbrev pub IsFrom : ℕ → List ℕ → Type 0
IsFrom least [] = Unit
IsFrom least (cpu ∷ cpus) = (least ≤ cpu) × IsFrom (suc cpu) cpus

abbrev pub IsCpuSet : List ℕ → Type 0
IsCpuSet cpus = IsFrom 0 cpus

abbrev pub IsBelow : ℕ → List ℕ → Type 0
IsBelow bound cpus = All (λ x. x < bound) cpus

pub IsBelow-mono : (a b : ℕ) (cpus : List ℕ) → a ≤ b → IsBelow a cpus → IsBelow b cpus
IsBelow-mono a b [] l h = tt
IsBelow-mono a b (x ∷ xs) l h = (omega (arith, l, h.0), IsBelow-mono a b xs l h.1)

abbrev pub range : (start count : ℕ) → List ℕ
range start zero = []
range start (suc count) = start ∷ range (suc start) count

pub range-IsBelow :
    (start count bound : ℕ) → start + count ≤ bound → IsBelow bound (range start count)
range-IsBelow start zero bound h = tt
range-IsBelow start (suc count) bound h =
    (omega (arith, h), range-IsBelow (suc start) count bound (omega (arith, h)))

pub range_last :
    (start count x : ℕ) (xs : List ℕ)
    → x ≡ start + count
    → range start (suc count) ++ xs ≡ range start count ++ x ∷ xs
range_last start zero x xs e = let p : start ≡ x = omega (arith, e) in ap (λ y. y ∷ xs) p
range_last start (suc count) x xs e =
    ap (λ ys. start ∷ ys) (range_last (suc start) count x xs (omega (arith, e)))

pub add_last : (x : ℕ) (cpus : List ℕ) → IsBelow x cpus → add x cpus ≡ cpus ++ x ∷ []
unfolding add
add_last x [] h = refl
add_last x (y ∷ ys) h = ground (arith, h.0, add_last x ys h.1)

pub add_range-append :
    (start count : ℕ) (cpus : List ℕ)
    → IsBelow start cpus
    → add_range start count cpus ≡ cpus ++ range start count
unfolding add_range
add_range-append start zero cpus h = sym (append-nil cpus)
add_range-append start (suc count) cpus h = rw (add_last start cpus h) (
    add_range-append (suc start) count (cpus ++ start ∷ []) (
      All-append (λ x. x < suc start) cpus (start ∷ [])
        (IsBelow-mono start (suc start) cpus (omega arith) h) (omega arith, tt))
    ∙ append_assoc cpus (start ∷ []) (range (suc start) count))

add-IsFrom :
    (least x : ℕ) (cpus : List ℕ) → least ≤ x → IsFrom least cpus → IsFrom least (add x cpus)
unfolding add
add-IsFrom least x [] l h = (l, tt)
add-IsFrom least x (y ∷ ys) l h = elim (Bool-cases (ltb x y)) [
  | inl q ↦ rw q (l, (ground (arith, q), h.1))
  | inr q ↦ elim (Bool-cases (x == y)) [
    | inl e ↦ rw (q, e) h
    | inr e ↦ rw (q, e) (h.0, add-IsFrom (suc y) x ys (ground (arith, q, e)) h.1)
  ]
]

pub add-ne-nil : (x : ℕ) (cpus : List ℕ) → add x cpus ≢ []
unfolding add
add-ne-nil x [] e = absurd cc
add-ne-nil x (y ∷ ys) e = absurd (ground (arith, e))

pub add-IsCpuSet : (x : ℕ) (cpus : List ℕ) → IsCpuSet cpus → IsCpuSet (add x cpus)
add-IsCpuSet x cpus h = add-IsFrom 0 x cpus (omega arith) h

pub add_range-IsCpuSet :
    (start count : ℕ) (cpus : List ℕ) → IsCpuSet cpus → IsCpuSet (add_range start count cpus)
unfolding add_range
add_range-IsCpuSet start zero cpus h = h
add_range-IsCpuSet start (suc count) cpus h =
    add_range-IsCpuSet (suc start) count (add start cpus) (add-IsCpuSet start cpus h)

pub add_range-ne-nil :
    (start count : ℕ) (cpus : List ℕ) → cpus ≢ [] → add_range start count cpus ≢ []
unfolding add_range
add_range-ne-nil start zero cpus h = h
add_range-ne-nil start (suc count) cpus h =
    add_range-ne-nil (suc start) count (add start cpus) (add-ne-nil start cpus)
