-- ===== src/Examples/Arithmetics.antt =====
-- An arithmetic that rounds down, with the laws that the predictions rely on.
use native.Mathlib.Nat.{div-le_of_le-mul, div-add-mod, mod-lt, le_of_mul-le-mul_left}
use claw_tune.Base.{
  ℕ, suc, ◌+◌, ◌*◌, ◌/◌, ◌%◌, ◌≤◌, ◌<◌, ◌≡◌, refl, leb, Bool, true, ◌&&◌, List, [], ◌∷◌, All,
  length, pos, arith,
}
use claw_tune.KvTtl.{Float, fin}
use claw_tune.Load.{Arithmetic, ArithmeticLaws, reading, total, ratios, one}

abbrev units : Float → ℕ
units (fin (pos n)) = n
units _ = 0

abbrev units_of : List Float → ℕ
units_of [] = 0
units_of (x ∷ xs) = units x + units_of xs

-- A sum that is off by less than a unit for each of its terms is close to one.
abbrev close : List Float → Bool
close ps = leb (units_of ps) one && leb one (units_of ps + length ps)

abbrev floor_mean : List ℕ → Float
floor_mean [] = reading 0
floor_mean (n ∷ ns) = reading (total (n ∷ ns) / length (n ∷ ns))

abbrev pub rounding : Arithmetic
rounding = record {
  mean = floor_mean;
  half_sum = λ a b. reading ((a + b) / 2);
  ratio = λ n count. reading (one * n / count);
  sums_to_one = close;
}

total-le : (hi : ℕ) (ns : List ℕ) → All (λ x. x ≤ hi) ns → total ns ≤ length ns * hi
total-le hi [] h = omega arith
total-le hi (n ∷ ns) h = grind (arith, h.0, total-le hi ns h.1)

share_step :
    (k c n t q r u l : ℕ)
    → c * q + r ≡ k * n
    → r < c
    → c * u ≤ k * t
    → k * t ≤ c * (u + l)
    → (c * (q + u) ≤ k * (n + t)) × (k * (n + t) ≤ c * (q + u + suc l))
share_step k c n t q r u l e h lo hi = (grind arith, grind arith)

-- The quotients of the parts fall short of the quotient of the whole by less than one each.
shares :
    (count : ℕ) (ns : List ℕ)
    → 0 < count
    → (count * units_of (ratios rounding count ns) ≤ one * total ns)
      × (one * total ns
          ≤ count * (units_of (ratios rounding count ns) + length (ratios rounding count ns)))
shares count [] p = (grind arith, grind arith)
shares count (n ∷ ns) p =
    let (lo, hi) = shares count ns p in
    share_step one count n (total ns) (one * n / count) (one * n % count)
      (units_of (ratios rounding count ns)) (length (ratios rounding count ns))
      (div-add-mod (one * n) count) (mod-lt (one * n) p) lo hi

mean_range :
    (hi n : ℕ) (ns : List ℕ)
    → All (λ x. x ≤ hi) (n ∷ ns)
    → (m : ℕ) × (floor_mean (n ∷ ns) ≡ reading m) × (m ≤ hi)
mean_range hi n ns h = (
  total (n ∷ ns) / length (n ∷ ns),
  refl,
  div-le_of_le-mul (length (n ∷ ns)) (total-le hi (n ∷ ns) h),
)

half_sum_range :
    (a b : ℕ) → a ≤ b → (m : ℕ) × (reading ((a + b) / 2) ≡ reading m) × (a ≤ m) × (m ≤ b)
half_sum_range a b h = ((a + b) / 2, refl, omega arith, omega arith)

ratio_range :
    (n count : ℕ)
    → n ≤ count
    → 0 < count
    → (m : ℕ) × (reading (one * n / count) ≡ reading m) × (m ≤ one)
ratio_range n count h p = (one * n / count, refl, div-le_of_le-mul count (grind arith))

ratio_total : (ns : List ℕ) → 0 < total ns → close (ratios rounding (total ns) ns) ≡ true
ratio_total ns p =
    let (lo, hi) = shares (total ns) ns p in
    let at_most : units_of (ratios rounding (total ns) ns) ≤ one =
      le_of_mul-le-mul_left {k = total ns} (grind (arith, lo)) p in
    let at_least : one
        ≤ units_of (ratios rounding (total ns) ns) + length (ratios rounding (total ns) ns) =
      le_of_mul-le-mul_left {k = total ns} (grind (arith, hi)) p in
    ground (arith, at_most, at_least)

pub rounding_laws : ArithmeticLaws rounding
rounding_laws = record {
  mean_range = mean_range;
  half_sum_range = λ a b h _. half_sum_range a b h;
  ratio_range = ratio_range;
  ratio_total = λ ns p _. ratio_total ns p;
}
