-- ===== src/Topology/Nodes.antt =====
-- What the topology makes of the files of the NUMA nodes and of the cgroups. The files are arguments, in
-- the order in which the code reads them.
pub mod Laws
use claw_tune.Base.{ℕ, Bool, true, false, Option, none, some, List, [], ◌∷◌}
use claw_tune.Topology.Text.{Text}
use claw_tune.Topology.CpuList.{parse_cpu_list, format_cpu_list}
use claw_tune.Topology.Caches.{intersection}
use claw_tune.Topology.Ticks.{NumaNode}

-- A path `node*`: the number of a directory `node<N>`, none for any other, and the text of its cpulist.
pub record NodeFiles : Type 0 where
  pub number : Option ℕ
  pub cpulist : Option Text

-- The entry of a node with these CPUs.
abbrev pub node_of : ℕ → List ℕ → NumaNode
node_of number cpus = record { node = number; cpulist = format_cpu_list cpus; cpus = cpus }

-- `[] if parsed is None else sorted(parsed)`
abbrev pub or_no_cpus : Option (List ℕ) → List ℕ
or_no_cpus none = []
or_no_cpus (some cpus) = cpus

abbrev pub cons_node : Option ℕ → List ℕ → List NumaNode → List NumaNode
cons_node none cpus rest = rest
cons_node (some number) cpus rest = node_of number cpus ∷ rest

-- `_host_numa_nodes`
unfoldable pub host_numa_nodes : List NodeFiles → List NumaNode
host_numa_nodes [] = []
host_numa_nodes (files ∷ more) =
    cons_node files.number (or_no_cpus (parse_cpu_list files.cpulist)) (host_numa_nodes more)

-- `_read_numa_nodes`: only the CPUs that the process may use.
unfoldable pub read_numa_nodes : List ℕ → List NodeFiles → List NumaNode
read_numa_nodes effective [] = []
read_numa_nodes effective (files ∷ more) =
    cons_node files.number (intersection (or_no_cpus (parse_cpu_list files.cpulist)) effective)
      (read_numa_nodes effective more)

-- `_read_effective_cpuset`, from the texts of `cpuset.cpus.effective` in the cgroup and those above it.
unfoldable pub read_effective_cpuset : List (Option Text) → Option (List ℕ)
read_effective_cpuset [] = none
read_effective_cpuset (text ∷ above) = elim (parse_cpu_list text) [
  | none ↦ read_effective_cpuset above
  | some cpus ↦ some cpus
]

abbrev pub narrowed : Option (List ℕ) → List ℕ → List ℕ
narrowed none cpus = cpus
narrowed (some allowed) cpus = intersection cpus allowed

-- The CPUs that `read_topology` calls effective.
unfoldable pub effective_cpus : (online : List ℕ) → (affinity cpuset : Option (List ℕ)) → List ℕ
effective_cpus online affinity cpuset = narrowed cpuset (narrowed affinity online)
