-- ===== src/Topology/Nodes/Laws.antt =====
-- The CPUs of the nodes.
use claw_tune.Base.{
  ℕ, suc, ◌≤◌, ◌≡◌, refl, inl, inr, ◌⊎◌, Bool-cases, Bool, true, ◌&&◌, Option, none, some, List, [],
  ◌∷◌, ◌==◌, arith,
}
use claw_tune.Topology.CpuList.{parse_cpu_list, format_cpu_list}
use claw_tune.Topology.CpuList.Sets.{IsFrom, IsCpuSet}
use claw_tune.Topology.CpuList.RoundTrip.{parse_cpu_list-format_cpu_list}
use claw_tune.Topology.CpuList.Canonical.{parse_cpu_list-IsCpuSet}
use claw_tune.Topology.Caches.{is_in, intersection}
use claw_tune.Topology.Ticks.{NumaNode}
use claw_tune.Topology.Nodes.{
  NodeFiles, or_no_cpus, cons_node, host_numa_nodes, read_numa_nodes, narrowed, effective_cpus,
}

IsFrom-mono : (a b : ℕ) (cpus : List ℕ) → a ≤ b → IsFrom b cpus → IsFrom a cpus
IsFrom-mono a b [] l h = tt
IsFrom-mono a b (x ∷ xs) l h = (omega (arith, l, h.0), h.1)

intersection-IsFrom :
    (least : ℕ) (cpus other : List ℕ) → IsFrom least cpus → IsFrom least (intersection cpus other)
unfolding intersection
intersection-IsFrom least [] other h = tt
intersection-IsFrom least (x ∷ xs) other h = elim (Bool-cases (is_in x other)) [
  | inl q ↦ rw q (h.0, intersection-IsFrom (suc x) xs other h.1)
  | inr q ↦ rw q (
      IsFrom-mono least (suc x) (intersection xs other) (omega (arith, h.0))
        (intersection-IsFrom (suc x) xs other h.1))
]

is_in-intersection :
    (cpu : ℕ) (xs ys : List ℕ) → is_in cpu (intersection xs ys) ≡ (is_in cpu xs && is_in cpu ys)
unfolding intersection is_in
is_in-intersection cpu [] ys = refl
is_in-intersection cpu (x ∷ xs) ys = elim (Bool-cases (x == cpu)) [
  | inl q ↦
      let e : x ≡ cpu = ground (arith, q) in rw e (ground (arith, is_in-intersection cpu xs ys))
  | inr q ↦ ground (arith, q, is_in-intersection cpu xs ys)
]

abbrev pub is_allowed : Option (List ℕ) → ℕ → Bool
is_allowed none cpu = true
is_allowed (some allowed) cpu = is_in cpu allowed

narrowed-allowed :
    (o : Option (List ℕ)) (cpus : List ℕ) (cpu : ℕ)
    → is_in cpu (narrowed o cpus) ≡ (is_in cpu cpus && is_allowed o cpu)
narrowed-allowed none cpus cpu = ground arith
narrowed-allowed (some allowed) cpus cpu = is_in-intersection cpu cpus allowed

narrowed-IsCpuSet :
    (o : Option (List ℕ)) (cpus : List ℕ) → IsCpuSet cpus → IsCpuSet (narrowed o cpus)
narrowed-IsCpuSet none cpus h = h
narrowed-IsCpuSet (some allowed) cpus h = intersection-IsFrom 0 cpus allowed h

-- The entry of a directory: its number, exactly the CPUs of its list that are allowed, in ascending
-- order, and their print, which is read back.
pub record IsNode (allowed : Option (List ℕ)) (files : NodeFiles) (n : NumaNode) : Type 0 where
  pub number : files.number ≡ some n.node
  pub ordered : IsCpuSet n.cpus
  pub cpus :
      (cpu : ℕ)
      → is_in cpu n.cpus
        ≡ (is_in cpu (or_no_cpus (parse_cpu_list files.cpulist)) && is_allowed allowed cpu)
  pub printed : (n.cpus ≡ []) ⊎ (parse_cpu_list (some n.cpulist) ≡ some n.cpus)

-- One node for each directory that has a number, in their order.
pub data AreNodes (allowed : Option (List ℕ)) : List NodeFiles → List NumaNode → Type 0 where
  done : AreNodes allowed [] []
  skipped :
      {f : NodeFiles} {fs : List NodeFiles} {ns : List NumaNode}
      → f.number ≡ none
      → AreNodes allowed fs ns
      → AreNodes allowed (f ∷ fs) ns
  listed :
      {f : NodeFiles} {n : NumaNode} {fs : List NodeFiles} {ns : List NumaNode}
      → IsNode allowed f n
      → AreNodes allowed fs ns
      → AreNodes allowed (f ∷ fs) (n ∷ ns)

print_again :
    (cpus : List ℕ)
    → IsCpuSet cpus
    → (cpus ≡ []) ⊎ (parse_cpu_list (some (format_cpu_list cpus)) ≡ some cpus)
print_again [] h = inl refl
print_again (x ∷ xs) h = inr (parse_cpu_list-format_cpu_list (x ∷ xs) h (λ e. absurd cc))

cons_node-AreNodes :
    (allowed : Option (List ℕ)) (f : NodeFiles) (number : Option ℕ) (fs : List NodeFiles)
    (ns : List NumaNode)
    → f.number ≡ number
    → AreNodes allowed fs ns
    → AreNodes allowed
        (f ∷ fs)
        (cons_node number (narrowed allowed (or_no_cpus (parse_cpu_list f.cpulist))) ns)
cons_node-AreNodes allowed f none fs ns given h = skipped given h
cons_node-AreNodes allowed f (some number) fs ns given h =
    let parsed = or_no_cpus (parse_cpu_list f.cpulist) in
    let c : IsCpuSet (narrowed allowed parsed) =
      narrowed-IsCpuSet allowed parsed (parse_cpu_list-IsCpuSet f.cpulist) in
    listed
      (record {
        number = given;
        ordered = c;
        cpus = λ cpu. narrowed-allowed allowed parsed cpu;
        printed = print_again (narrowed allowed parsed) c;
      })
      h

-- The sampler lists one node for each directory that has a number, with exactly the CPUs of its parsed
-- list; the topology lists the same nodes, with exactly those of these CPUs that are effective. Both
-- have the CPUs in ascending order, and their print is read back as the same CPUs, if there are any.
pub numa_nodes-AreNodes :
    (effective : List ℕ) (files : List NodeFiles)
    → AreNodes none files (host_numa_nodes files)
      × AreNodes (some effective) files (read_numa_nodes effective files)
unfolding host_numa_nodes read_numa_nodes
numa_nodes-AreNodes effective [] = (done, done)
numa_nodes-AreNodes effective (f ∷ fs) =
    let h = numa_nodes-AreNodes effective fs in
    (
      cons_node-AreNodes none f f.number fs (host_numa_nodes fs) refl h.0,
      cons_node-AreNodes (some effective) f f.number fs (read_numa_nodes effective fs) refl h.1,
    )

-- A CPU is effective exactly if it is online and in the affinity mask and the cpuset, where there are
-- such.
pub effective_cpus_lem :
    (online : List ℕ) (affinity cpuset : Option (List ℕ)) (cpu : ℕ)
    → is_in cpu (effective_cpus online affinity cpuset)
      ≡ (is_in cpu online && (is_allowed affinity cpu && is_allowed cpuset cpu))
unfolding effective_cpus
effective_cpus_lem online affinity cpuset cpu = ground (
  arith,
  narrowed-allowed cpuset (narrowed affinity online) cpu,
  narrowed-allowed affinity online cpu,
)
