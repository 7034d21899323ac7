-- ===== src/KvTtl/Rank.antt =====
-- Valid policies as lists of natural numbers, and which bucket a time is in.
use claw_tune.Base.{
  ℕ, zero, suc, ◌+◌, ◌≤◌, ◌<◌, ◌≡◌, refl, ap, ℤ, pos, negsuc, ltb, true, false, none, some, List,
  [], ◌∷◌, map, length, get_elem?, arith,
}
use claw_tune.KvTtl.{
  Float, fin, inf, neg_inf, nan, bisect_right, has_bad_boundary, has_bad_ttl, validate_policy,
  is_index,
}

-- A finite float that is not negative.
abbrev pub nat : ℕ → Float
nat n = fin (pos n)

-- Each number is above the one before it.
abbrev pub IsSorted : ℕ → List ℕ → Type 0
IsSorted p [] = Unit
IsSorted p (b ∷ bs) = (p < b) × IsSorted b bs

-- The number of boundaries up to `t`.
unfoldable pub rank : List ℕ → ℕ → ℕ
rank [] t = 0
rank (b ∷ bs) t = let rest = rank bs t in elim (ltb t b) [ true ↦ 0 | false ↦ suc rest ]

pub bisect_right-rank : (bs : List ℕ) (t : ℕ) → bisect_right (map nat bs) (nat t) ≡ rank bs t
unfolding bisect_right rank
bisect_right-rank [] t = refl
bisect_right-rank (b ∷ bs) t = ground (arith, bisect_right-rank bs t)

pub get_elem?-map :
    (xs : List ℕ) (k : ℕ)
    → get_elem? (map nat xs) k ≡ elim (get_elem? xs k) [ none ↦ none | some x ↦ some (nat x) ]
get_elem?-map [] k = refl
get_elem?-map (x ∷ xs) zero = refl
get_elem?-map (x ∷ xs) (suc k) = get_elem?-map xs k

pub length-map : (xs : List ℕ) → length (map nat xs) ≡ length xs
length-map [] = refl
length-map (x ∷ xs) = ap suc (length-map xs)

pub get_elem?-some : (xs : List ℕ) (k : ℕ) → k < length xs → (x : ℕ) × (get_elem? xs k ≡ some x)
get_elem?-some [] k h = absurd (omega (arith, h))
get_elem?-some (x ∷ xs) zero h = (x, refl)
get_elem?-some (x ∷ xs) (suc k) h = get_elem?-some xs k (omega (arith, h))

pub rank-le-length : (bs : List ℕ) (t : ℕ) → rank bs t ≤ length bs
unfolding rank
rank-le-length [] t = omega arith
rank-le-length (b ∷ bs) t = ground (arith, rank-le-length bs t)

-- Before the boundary at `k`, the bucket is at most `k`.
pub rank-le : (bs : List ℕ) (k : ℕ) {b t : ℕ} → get_elem? bs k ≡ some b → t < b → rank bs t ≤ k
unfolding rank
rank-le [] k h l = absurd cc
rank-le (c ∷ bs) zero h l = ground arith
rank-le (c ∷ bs) (suc k) h l = ground (arith, rank-le bs k h l)

pub IsSorted-above :
    (p : ℕ) (bs : List ℕ) (k : ℕ) {b : ℕ} → IsSorted p bs → get_elem? bs k ≡ some b → p < b
IsSorted-above p [] k s h = absurd cc
IsSorted-above p (c ∷ bs) zero s h = ground (arith, s.0)
IsSorted-above p (c ∷ bs) (suc k) s h = omega (arith, s.0, IsSorted-above c bs k s.1 h)

-- From the boundary at `k` on, the bucket is beyond `k`.
pub rank-gt :
    (p : ℕ) (bs : List ℕ) (k : ℕ) {b t : ℕ}
    → IsSorted p bs
    → get_elem? bs k ≡ some b
    → b ≤ t
    → k < rank bs t
unfolding rank
rank-gt p [] k s h l = absurd cc
rank-gt p (c ∷ bs) zero s h l = ground arith
rank-gt p (c ∷ bs) (suc k) s h l =
    ground (arith, rank-gt c bs k s.1 h l, IsSorted-above c bs k s.1 h)

pub get_elem?-sorted :
    (p : ℕ) (bs : List ℕ) (k : ℕ) {a b : ℕ}
    → IsSorted p bs
    → get_elem? bs k ≡ some a
    → get_elem? bs (suc k) ≡ some b
    → a < b
get_elem?-sorted p [] k s h g = absurd cc
get_elem?-sorted p (c ∷ bs) zero s h g = ground (arith, IsSorted-above c bs 0 s.1 g)
get_elem?-sorted p (c ∷ bs) (suc k) s h g = get_elem?-sorted c bs k s.1 h g

-- What `_validate_policy` lets through.
pub record IsPolicy (initial : ℤ) (boundaries ttls : List Float) : Type 0 where
  pub k : ℕ
  pub bs : List ℕ
  pub ts : List ℕ
  pub initial_is : initial ≡ pos k
  pub boundaries_are : boundaries ≡ map nat bs
  pub ttls_are : ttls ≡ map nat ts
  pub sorted : IsSorted 0 bs
  pub count : length ts ≡ suc (length bs)
  pub in_range : k ≤ length bs

good_boundaries :
    (p : ℕ) (boundaries : List Float)
    → has_bad_boundary (nat p) boundaries ≡ false
    → (bs : List ℕ) × (boundaries ≡ map nat bs) × IsSorted p bs
unfolding has_bad_boundary
good_boundaries p [] h = ([], refl, tt)
good_boundaries p (nan ∷ bs) h = absurd cc
good_boundaries p (inf ∷ bs) h = absurd cc
good_boundaries p (neg_inf ∷ bs) h = absurd cc
good_boundaries p (fin (negsuc n) ∷ bs) h = absurd cc
good_boundaries p (fin (pos b) ∷ bs) h =
    let (cs, e, s) = good_boundaries b bs (ground (arith, h)) in
    (b ∷ cs, ap (λ x. nat b ∷ x) e, (ground (arith, h), s))

good_ttls : (ttls : List Float) → has_bad_ttl ttls ≡ false → (ts : List ℕ) × (ttls ≡ map nat ts)
unfolding has_bad_ttl
good_ttls [] h = ([], refl)
good_ttls (nan ∷ ts) h = absurd cc
good_ttls (inf ∷ ts) h = absurd cc
good_ttls (neg_inf ∷ ts) h = absurd cc
good_ttls (fin (negsuc n) ∷ ts) h = absurd (ground (arith, h))
good_ttls (fin (pos t) ∷ ts) h =
    let (us, e) = good_ttls ts (ground (arith, h)) in (t ∷ us, ap (λ x. nat t ∷ x) e)

good_index : (i : ℤ) (n : ℕ) → is_index i n ≡ true → (k : ℕ) × (i ≡ pos k) × (k < n)
good_index (pos k) n h = (k, refl, ground (arith, h))
good_index (negsuc k) n h = absurd cc

pub validate_policy-IsPolicy :
    (initial : ℤ) (boundaries ttls : List Float)
    → validate_policy initial boundaries ttls ≡ none
    → IsPolicy initial boundaries ttls
unfolding validate_policy
validate_policy-IsPolicy initial boundaries ttls h =
    let (bs, eb, s) = good_boundaries 0 boundaries (ground (arith, h)) in
    let (ts, et) = good_ttls ttls (ground (arith, h)) in
    let (k, ek, l) = good_index initial (length boundaries + 1) (ground (arith, h)) in
    record {
      k = k;
      bs = bs;
      ts = ts;
      initial_is = ek;
      boundaries_are = eb;
      ttls_are = et;
      sorted = s;
      count = ground (arith, h, eb, et, length-map bs, length-map ts);
      in_range = ground (arith, l, eb, length-map bs);
    }
