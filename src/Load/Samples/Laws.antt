-- ===== src/Load/Samples/Laws.antt =====
-- The statistics exist, are in order, and count every value once.
use claw_tune.Base.{
  ℕ, zero, suc, ◌+◌, ◌/◌, ◌≤◌, ◌<◌, ◌≡◌, refl, ◌∙◌, ap, leb, some, List, [], ◌∷◌, All, All-map,
  length, get_elem?, arith, Bool-cases, inl, inr,
}
use claw_tune.KvTtl.{Float, bisect_right}
use claw_tune.Load.{reading, total}
use claw_tune.Load.Samples.{insert_sorted, sort, bump, zeros, count_buckets, p90_index}

pub length-insert_sorted : (n : ℕ) (ms : List ℕ) → length (insert_sorted n ms) ≡ suc (length ms)
unfolding insert_sorted
length-insert_sorted n [] = refl
length-insert_sorted n (m ∷ ms) = ground (arith, length-insert_sorted n ms)

pub length-sort : (ns : List ℕ) → length (sort ns) ≡ length ns
unfolding sort
length-sort [] = refl
length-sort (n ∷ ns) = length-insert_sorted n (sort ns) ∙ ap suc (length-sort ns)

-- Each element is at most the ones after it.
abbrev pub IsOrdered : List ℕ → Type 0
IsOrdered [] = Unit
IsOrdered (n ∷ ns) = All (λ m. n ≤ m) ns × IsOrdered ns

pub All-insert_sorted :
    (P : ℕ → Type 0) (n : ℕ) (ms : List ℕ) → P n → All P ms → All P (insert_sorted n ms)
unfolding insert_sorted
All-insert_sorted P n [] p h = (p, tt)
All-insert_sorted P n (m ∷ ms) p h = elim (Bool-cases (leb n m)) [
  | inl e ↦ rw e (p, h)
  | inr e ↦ rw e (h.0, All-insert_sorted P n ms p h.1)
]

insert_sorted-IsOrdered : (n : ℕ) (ms : List ℕ) → IsOrdered ms → IsOrdered (insert_sorted n ms)
unfolding insert_sorted
insert_sorted-IsOrdered n [] h = (tt, tt)
insert_sorted-IsOrdered n (m ∷ ms) h = elim (Bool-cases (leb n m)) [
  | inl e ↦
      rw e (
        (ground (arith, e), All-map (λ x. m ≤ x) (λ x. n ≤ x) ms (λ x q. ground (arith, e)) h.0),
        h,
      )
  | inr e ↦ rw e (
    All-insert_sorted (λ x. m ≤ x) n ms (ground (arith, e)) h.0,
    insert_sorted-IsOrdered n ms h.1,
  )
]

pub sort-IsOrdered : (ns : List ℕ) → IsOrdered (sort ns)
unfolding sort
sort-IsOrdered [] = tt
sort-IsOrdered (n ∷ ns) = insert_sorted-IsOrdered n (sort ns) (sort-IsOrdered ns)

pub All-sort : (P : ℕ → Type 0) (ns : List ℕ) → All P ns → All P (sort ns)
unfolding sort
All-sort P [] h = tt
All-sort P (n ∷ ns) h = All-insert_sorted P n (sort ns) h.0 (All-sort P ns h.1)

pub All-get :
    (P : ℕ → Type 0) (ns : List ℕ) (i : ℕ) {a : ℕ} → All P ns → get_elem? ns i ≡ some a → P a
All-get P [] i h e = absurd cc
All-get P (n ∷ ns) zero h e = rw (← same n _ e) h.0
  where
    same : (a b : ℕ) → some a ≡ some b → a ≡ b
    same a b q = cc
All-get P (n ∷ ns) (suc i) h e = All-get P ns i h.1 e

pub get-IsOrdered :
    (ns : List ℕ) (i j : ℕ) {a b : ℕ}
    → IsOrdered ns
    → i ≤ j
    → get_elem? ns i ≡ some a
    → get_elem? ns j ≡ some b
    → a ≤ b
get-IsOrdered [] i j s h p q = absurd cc
get-IsOrdered (n ∷ ns) zero zero s h p q = ground arith
get-IsOrdered (n ∷ ns) zero (suc j) s h p q = ground (arith, All-get (λ m. n ≤ m) ns j s.0 q)
get-IsOrdered (n ∷ ns) (suc i) zero s h p q = absurd (omega (arith, h))
get-IsOrdered (n ∷ ns) (suc i) (suc j) s h p q = get-IsOrdered ns i j s.1 (omega (arith, h)) p q

-- The last element is a bound.
pub All-le-last :
    (ns : List ℕ) (k : ℕ) {b : ℕ}
    → IsOrdered ns
    → length ns ≡ suc k
    → get_elem? ns k ≡ some b
    → All (λ x. x ≤ b) ns
All-le-last [] k s l e = absurd (omega (arith, l))
All-le-last (n ∷ []) zero s l e = (ground arith, tt)
All-le-last (n ∷ m ∷ ns) zero s l e = absurd (omega (arith, l))
All-le-last (n ∷ ns) (suc k) s l e =
    (All-get (λ m. n ≤ m) ns k s.0 e, All-le-last ns k s.1 (omega (arith, l)) e)

-- The indexes of the quantiles, for one or more values.
pub p90_index_range : (n : ℕ) → 0 < n → (n / 2 ≤ p90_index n) × (p90_index n < n) × (n / 2 < n)
unfolding p90_index
p90_index_range n h = (omega (arith, h), omega (arith, h), omega (arith, h))

bisect_right-le-length : (edges : List Float) (x : Float) → bisect_right edges x ≤ length edges
unfolding bisect_right
bisect_right-le-length [] x = omega arith
bisect_right-le-length (e ∷ edges) x = ground (arith, bisect_right-le-length edges x)

bump-total :
    (i : ℕ) (ns : List ℕ)
    → i < length ns
    → (ms : List ℕ) × (bump i ns ≡ some ms) × (length ms ≡ length ns) × (total ms ≡ suc (total ns))
unfolding bump
bump-total i [] h = absurd (omega (arith, h))
bump-total zero (n ∷ ns) h = (suc n ∷ ns, refl, refl, omega arith)
bump-total (suc i) (n ∷ ns) h =
    let (ms, e, l, t) = bump-total i ns (omega (arith, h)) in
    (n ∷ ms, rw e refl, omega (arith, l), omega (arith, t))

zeros-total : (n : ℕ) → (length (zeros n) ≡ n) × (total (zeros n) ≡ 0)
unfolding zeros
zeros-total zero = (refl, refl)
zeros-total (suc n) = (omega (arith, zeros-total n), omega (arith, zeros-total n))

-- Counting from counts with one place more than there are edges.
count_buckets-total :
    (edges : List Float) (vs counts : List ℕ)
    → length counts ≡ suc (length edges)
    → (ms : List ℕ) × (count_buckets edges vs counts ≡ some ms)
      × (length ms ≡ length counts)
      × (total ms ≡ total counts + length vs)
unfolding count_buckets
count_buckets-total edges [] counts l = (counts, refl, refl, omega arith)
count_buckets-total edges (v ∷ vs) counts l =
    let (ns, e, l1, t1) =
      bump-total (bisect_right edges (reading v)) counts
        (omega (arith, l, bisect_right-le-length edges (reading v))) in
    let (ms, e2, l2, t2) = count_buckets-total edges vs ns (omega (arith, l1, l)) in
    (ms, step ns e ∙ e2, l2 ∙ l1, omega (arith, t1, t2))
  where
    step :
        (ns : List ℕ)
        → bump (bisect_right edges (reading v)) counts ≡ some ns
        → count_buckets edges (v ∷ vs) counts ≡ count_buckets edges vs ns
    step ns e = rw (count_buckets, e) refl

pub count_buckets_all :
    (edges : List Float) (vs : List ℕ)
    → (ms : List ℕ) × (count_buckets edges vs (zeros (length edges + 1)) ≡ some ms)
      × (length ms ≡ suc (length edges))
      × (total ms ≡ length vs)
count_buckets_all edges vs =
    let (lz, tz) = zeros-total (length edges + 1) in
    let (ms, e, l, t) =
      count_buckets-total edges vs (zeros (length edges + 1)) (omega (arith, lz)) in
    (ms, e, omega (arith, l, lz), omega (arith, t, tz))
