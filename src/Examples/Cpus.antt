-- ===== src/Examples/Cpus.antt =====
-- CPU lists, counters and caches of a host with two CPUs.
use native.Mathlib.Decide.{ℕ_discrete}
use claw_tune.Base.{ℕ, ◌≡◌, ◌⊎◌, refl, none, some, List, [], ◌∷◌, arith}
use claw_tune.Dict.{get}
use claw_tune.Topology.Text.{
  Text, strip_left, strip_right, strip, split, join, split_once, scan, int, digits, str,
}
use claw_tune.Topology.CpuList.{
  add, add_range, add_between, add_one, parse_part, parse_parts, parse_cpu_list, show_range,
  show_ranges, format_cpu_list,
}
use claw_tune.Topology.CpuList.RoundTrip.{parse_cpu_list-format_cpu_list}
use claw_tune.Topology.CpuList.Canonical.{IsFilled, parse_cpu_list_again}
use claw_tune.Topology.Ticks.{
  CpuTicks, Ticks, sum_deltas, aggregate_node_delta, NumaNode, Sampler, new_sampler, sample,
}
use claw_tune.Topology.Ticks.Laws.{IsForward, AreUsages, sample-AreUsages}
use claw_tune.Topology.Nodes.{NodeFiles, host_numa_nodes, read_numa_nodes}
use claw_tune.Topology.Nodes.Laws.{AreNodes, numa_nodes-AreNodes}
use claw_tune.Topology.Quota.{
  split_spaces, drop_empty, read_quota, least_quota, read_effective_cpu_quota,
}
use claw_tune.Topology.Caches.{is_same, CacheFiles, highest_by_cpu}
use claw_tune.Topology.Caches.Laws.{IsHighest, IsOffered, highest_by_cpu-IsHighest}

abbrev cpus : List ℕ
cpus = 0 ∷ 1 ∷ 2 ∷ 5 ∷ 11 ∷ 12 ∷ []

-- "0-2,5,11-12"
abbrev printed : Text
printed = b'0' ∷ b'-' ∷ b'2' ∷ b',' ∷ b'5' ∷ b',' ∷ b'1' ∷ b'1' ∷ b'-' ∷ b'1' ∷ b'2' ∷ []

print_test : format_cpu_list cpus ≡ printed
unfolding format_cpu_list show_ranges show_range str digits join
print_test = refl

parse_cpu_list-format_cpu_list_example : parse_cpu_list (some (format_cpu_list cpus)) ≡ some cpus
parse_cpu_list-format_cpu_list_example = parse_cpu_list-format_cpu_list cpus (omega arith) (cc)

-- " 3, 1-2"
abbrev unordered : Text
unordered = 32 ∷ b'3' ∷ b',' ∷ 32 ∷ b'1' ∷ b'-' ∷ b'2' ∷ []

parse_test : parse_cpu_list (some unordered) ≡ some (1 ∷ 2 ∷ 3 ∷ [])
unfolding parse_cpu_list parse_parts parse_part add_between add_one add_range add split split_once
    int scan strip strip_left strip_right
parse_test = refl

parse_cpu_list_again_example :
    IsFilled (1 ∷ 2 ∷ 3 ∷ [])
    × (parse_cpu_list (some (format_cpu_list (1 ∷ 2 ∷ 3 ∷ []))) ≡ some (1 ∷ 2 ∷ 3 ∷ []))
parse_cpu_list_again_example = parse_cpu_list_again (some unordered) (1 ∷ 2 ∷ 3 ∷ []) parse_test

abbrev counted : (user idle iowait : ℕ) → CpuTicks
counted user idle iowait = record {
  user = user;
  nice = 0;
  system = 0;
  idle = idle;
  iowait = iowait;
  irq = 0;
  softirq = 0;
  steal = 0;
  guest = 0;
  guest_nice = 0;
}

abbrev first_ticks : Ticks
first_ticks = (0, counted 10 100 5) ∷ []

abbrev second_ticks : Ticks
second_ticks = (0, counted 40 170 5) ∷ (1, counted 3 3 3) ∷ []

first_second-IsForward : IsForward first_ticks second_ticks
unfolding get
first_second-IsForward cpu before after p q = ground (arith, p, q)

abbrev node : NumaNode
node = record { node = 0; cpulist = []; cpus = 0 ∷ 1 ∷ [] }

abbrev sampler : Sampler
sampler = new_sampler (node ∷ []) 100 first_ticks 1000000

sample-AreUsages_example :
    AreUsages (node ∷ []) (sample second_ticks 2000000 sampler).0.nodes
    × ((sample second_ticks 2000000 sampler).1.prev_ticks ≡ some second_ticks)
sample-AreUsages_example =
    sample-AreUsages first_ticks second_ticks first_second-IsForward sampler 2000000 refl

-- Where the count of waiting ticks goes back, there are more busy ticks than ticks.
abbrev back_ticks : Ticks
back_ticks = (0, counted 20 100 0) ∷ []

back_test :
    aggregate_node_delta (0 ∷ []) first_ticks back_ticks
    ≡ some (record { busy_delta = 10; total_delta = 5; covered = 1 })
unfolding aggregate_node_delta sum_deltas get ℕ_discrete
back_test = refl

abbrev data_cache : CacheFiles
data_cache = record {
  cpu = some 0;
  type = some (b'D' ∷ b'a' ∷ b't' ∷ b'a' ∷ []);
  level = some (b'1' ∷ []);
  shared_cpu_list = some (b'0' ∷ []);
}

abbrev unified_cache : CacheFiles
unified_cache = record {
  cpu = some 0;
  type = some (b'U' ∷ b'n' ∷ b'i' ∷ b'f' ∷ b'i' ∷ b'e' ∷ b'd' ∷ []);
  level = some (b'3' ∷ []);
  shared_cpu_list = some (b'0' ∷ b'-' ∷ b'1' ∷ []);
}

abbrev caches : List CacheFiles
caches = data_cache ∷ unified_cache ∷ []

highest_by_cpu-IsHighest_example :
    IsHighest (0 ∷ 1 ∷ []) 0 caches (get ℕ_discrete 0 (highest_by_cpu (0 ∷ 1 ∷ []) caches))
    × ((get ℕ_discrete 0 (highest_by_cpu (0 ∷ 1 ∷ []) caches) ≡ none)
        ⊎ IsOffered (0 ∷ 1 ∷ []) 0 caches (get ℕ_discrete 0 (highest_by_cpu (0 ∷ 1 ∷ []) caches)))
highest_by_cpu-IsHighest_example = highest_by_cpu-IsHighest (0 ∷ 1 ∷ []) caches 0

abbrev node_files : List NodeFiles
node_files =
    record { number = some 0; cpulist = some printed }
    ∷ record { number = none; cpulist = none }
    ∷ record { number = some 1; cpulist = some unordered }
    ∷ []

numa_nodes-AreNodes_example :
    AreNodes none node_files (host_numa_nodes node_files)
    × AreNodes (some (0 ∷ 2 ∷ 3 ∷ [])) node_files (read_numa_nodes (0 ∷ 2 ∷ 3 ∷ []) node_files)
numa_nodes-AreNodes_example = numa_nodes-AreNodes (0 ∷ 2 ∷ 3 ∷ []) node_files

-- "50 99", "max 9" above it, no file, and "40 99" at the top.
quota_test :
    read_effective_cpu_quota (
      some (b'5' ∷ b'0' ∷ b' ' ∷ b'9' ∷ b'9' ∷ [])
      ∷ some (b'm' ∷ b'a' ∷ b'x' ∷ b' ' ∷ b'9' ∷ [])
      ∷ none
      ∷ some (b'4' ∷ b'0' ∷ b' ' ∷ b'9' ∷ b'9' ∷ [])
      ∷ [])
    ≡ some (record { part = 40; whole = 99 })
unfolding least_quota read_quota split_spaces drop_empty is_same int scan strip strip_left
    strip_right
quota_test = refl
