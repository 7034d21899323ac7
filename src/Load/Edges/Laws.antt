-- ===== src/Load/Edges/Laws.antt =====
-- Which edges pass.
use mathlib.Core.Path.{subst}
use claw_tune.Base.{
  ℕ, ◌<◌, ◌≡◌, refl, sym, ◌∙◌, ap, pos, negsuc, false, some, List, [], ◌∷◌, All, map, arith, inl,
  inr, String, Option-cases,
}
use claw_tune.KvTtl.{Float, fin, nan, inf, neg_inf}
use claw_tune.KvTtl.Rank.{IsSorted}
use claw_tune.Dict.{Dict}
use claw_tune.Load.{Value, number, boolean, other, reading}
use claw_tune.Load.Edges.{
  is_bad_edge, has_bad_edge, floats, has_step_down, numbers, validate_edges, resource_edges,
  override, load_bucket_edges, default_resource_buckets,
}

good_edge : (v : Value) → is_bad_edge v ≡ false → (n : ℕ) × (v ≡ number (reading n)) × (0 < n)
unfolding is_bad_edge
good_edge (number nan) h = absurd cc
good_edge (number inf) h = absurd cc
good_edge (number neg_inf) h = absurd cc
good_edge (number (fin (negsuc n))) h = absurd (ground (arith, h))
good_edge (number (fin (pos n))) h = (n, refl, ground (arith, h))
good_edge (boolean b) h = absurd cc
good_edge other h = absurd cc

good_edges :
    (vs : List Value)
    → has_bad_edge vs ≡ false
    → (ns : List ℕ) × (vs ≡ numbers (map reading ns))
      × (floats vs ≡ map reading ns)
      × All (λ n. 0 < n) ns
unfolding has_bad_edge numbers floats
good_edges [] h = ([], refl, refl, tt)
good_edges (v ∷ vs) h =
    let (n, e, p) = good_edge v (ground (arith, h)) in
    let (ns, es, fs, ps) = good_edges vs (ground (arith, h)) in
    (n ∷ ns, rw (e, es) refl, rw (e, fs) refl, (p, ps))

increasing : (ns : List ℕ) (n : ℕ) → has_step_down (map reading (n ∷ ns)) ≡ false → IsSorted n ns
unfolding has_step_down
increasing [] n h = tt
increasing (m ∷ ns) n h = (ground (arith, h), increasing ns m (ground (arith, h)))

numbers_nonempty : {v : Value} {vs : List Value} → v ∷ vs ≡ numbers [] → ⊥
unfolding numbers
numbers_nonempty h = cc

-- Edges that were made of counts of units.
pub record AreEdges (edges : List Float) : Type 0 where
  pub first : ℕ
  pub rest : List ℕ
  pub are : edges ≡ map reading (first ∷ rest)
  pub sorted : IsSorted 0 (first ∷ rest)

pub validate_edges-AreEdges :
    (vs : List Value) (edges : List Float)
    → validate_edges vs ≡ some edges
    → AreEdges edges × (vs ≡ numbers edges)
unfolding validate_edges
validate_edges-AreEdges [] edges h = absurd cc
validate_edges-AreEdges (v ∷ vs) edges h =
    let (ns, e, f, ps) = good_edges (v ∷ vs) (ground (arith, h)) in
    let same : floats (v ∷ vs) ≡ edges = ground (arith, h) in
    go ns (e ∙ ap numbers (sym f ∙ same)) (sym same ∙ f) ps (rw (← same) (ground (arith, h)))
  where
    go :
        (ns : List ℕ)
        → v ∷ vs ≡ numbers edges
        → edges ≡ map reading ns
        → All (λ n. 0 < n) ns
        → has_step_down edges ≡ false
        → AreEdges edges × (v ∷ vs ≡ numbers edges)
    go [] e f ps d = absurd (numbers_nonempty (e ∙ ap numbers f))
    go (n ∷ ns) e f ps d = (
      record {
        first = n;
        rest = ns;
        are = f;
        sorted = (ps.0, increasing ns n (sym (ap has_step_down f) ∙ d));
      },
      e,
    )

-- Edges that have passed pass again.
pub validate_edges-again :
    (vs : List Value) (edges : List Float)
    → validate_edges vs ≡ some edges
    → validate_edges (numbers edges) ≡ some edges
validate_edges-again vs edges h = ap validate_edges (sym (validate_edges-AreEdges vs edges h).1) ∙ h

abbrev pub targets_of {ℓ} : {V : Type ℓ} → List (String × V) → List String
targets_of [] = []
targets_of ((target, _) ∷ d) = target ∷ targets_of d

abbrev pub EachEdges : Dict String (List Float) → Type 0
EachEdges [] = Unit
EachEdges ((_, edges) ∷ d) = AreEdges edges × EachEdges d

-- Edges for each of the targets, in their order, and for no other.
abbrev pub AreBuckets : List String → Dict String (List Float) → Type 0
AreBuckets targets buckets = (targets_of buckets ≡ targets) × EachEdges buckets

cons-AreBuckets :
    (target : String) (targets : List String) (vs : List Value) (edges : List Float)
    (buckets : Dict String (List Float))
    → validate_edges vs ≡ some edges
    → AreBuckets targets buckets
    → AreBuckets (target ∷ targets) ((target, edges) ∷ buckets)
cons-AreBuckets target targets vs edges buckets e (keys, each) =
    (ap (λ ts. target ∷ ts) keys, ((validate_edges-AreEdges vs edges e).0, each))

resource_edges-AreBuckets :
    (overrides defaults : Dict String (List Value)) (buckets : Dict String (List Float))
    → resource_edges overrides defaults ≡ some buckets
    → AreBuckets (targets_of defaults) buckets
unfolding resource_edges
resource_edges-AreBuckets overrides [] buckets h = rw (← same) (refl, tt)
  where
    same : [] ≡ buckets
    same = cc
resource_edges-AreBuckets overrides ((target, default) ∷ rest) buckets h =
    elim (Option-cases (validate_edges (override overrides target default))) [
      | inl e ↦ absurd (ground (arith, e, h))
      | inr (edges, e) ↦ elim (Option-cases (resource_edges overrides rest)) [
        | inl r ↦ absurd (ground (arith, e, r, h))
        | inr (tail, r) ↦
            let same : (target, edges) ∷ tail ≡ buckets = ground (arith, e, r, h) in
            subst (AreBuckets (target ∷ targets_of rest)) same
              (cons-AreBuckets target _ _ _ _ e (resource_edges-AreBuckets overrides rest tail r))
      ]
    ]

-- What `load_bucket_edges` returns has a list of edges for the duration and for each resource that
-- has defaults: each is not empty, positive and strictly increasing.
pub load_bucket_edges-AreBuckets :
    (duration_edges : List Value) (overrides : Dict String (List Value))
    (buckets : Dict String (List Float))
    → load_bucket_edges duration_edges overrides ≡ some buckets
    → AreBuckets ("duration_ms" ∷ targets_of default_resource_buckets) buckets
unfolding load_bucket_edges
load_bucket_edges-AreBuckets duration_edges overrides buckets h =
    elim (Option-cases (validate_edges duration_edges)) [
      | inl e ↦ absurd (ground (arith, e, h))
      | inr (edges, e) ↦ elim (Option-cases (resource_edges overrides default_resource_buckets)) [
        | inl r ↦ absurd (ground (arith, e, r, h))
        | inr (tail, r) ↦
            let same : ("duration_ms", edges) ∷ tail ≡ buckets = ground (arith, e, r, h) in
            subst (AreBuckets ("duration_ms" ∷ targets_of default_resource_buckets)) same (
              cons-AreBuckets "duration_ms" _ _ _ _ e
                (resource_edges-AreBuckets overrides default_resource_buckets tail r))
      ]
    ]
