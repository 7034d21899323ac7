-- ===== src/Topology/Ticks.antt =====
-- The CPU counters of /proc/stat and `NumaCpuUsageSampler`. The quotients of the code are kept as
-- fractions, before they are divided and rounded to a float.
pub mod Laws
use native.Mathlib.Decide.{ℕ_discrete}
use claw_tune.Base.{
  ℕ, zero, suc, ◌+◌, ◌-◌, ◌*◌, Bool, true, false, not, ◌&&◌, ◌||◌, Option, none, some, List, [],
  ◌∷◌, map, length, if◌then◌else◌, ltb, ◌==◌,
}
use claw_tune.Dict.{Dict, get}
use claw_tune.Topology.Text.{Text}

pub record CpuTicks : Type 0 where
  pub user : ℕ
  pub nice : ℕ
  pub system : ℕ
  pub idle : ℕ
  pub iowait : ℕ
  pub irq : ℕ
  pub softirq : ℕ
  pub steal : ℕ
  pub guest : ℕ
  pub guest_nice : ℕ

abbrev pub total : CpuTicks → ℕ
total t = t.user + t.nice + t.system + t.idle + t.iowait + t.irq + t.softirq + t.steal

abbrev pub busy : CpuTicks → ℕ
busy t = total t - t.idle - t.iowait

abbrev pub Ticks : Type 0
Ticks = Dict ℕ CpuTicks

-- `busy`, `total` and `covered`
pub record Delta : Type 0 where
  pub busy_delta : ℕ
  pub total_delta : ℕ
  pub covered : ℕ

-- One turn of the loop: subtraction that stops at zero is `max(0, …)`.
abbrev pub add_cpu : Option CpuTicks → Option CpuTicks → Delta → Delta
add_cpu (some before) (some after) d = record {
  busy_delta = d.busy_delta + (busy after - busy before);
  total_delta = d.total_delta + (total after - total before);
  covered = d.covered + 1;
}
add_cpu _ _ d = d

unfoldable pub sum_deltas : List ℕ → Ticks → Ticks → Delta → Delta
sum_deltas [] prev_ticks ticks d = d
sum_deltas (cpu ∷ cpus) prev_ticks ticks d =
    sum_deltas cpus prev_ticks ticks
      (add_cpu (get ℕ_discrete cpu prev_ticks) (get ℕ_discrete cpu ticks) d)

abbrev pub no_delta : Delta
no_delta = record { busy_delta = 0; total_delta = 0; covered = 0 }

-- `_aggregate_node_delta`
unfoldable pub aggregate_node_delta : List ℕ → Ticks → Ticks → Option Delta
aggregate_node_delta cpus prev_ticks ticks =
    let d = sum_deltas cpus prev_ticks ticks no_delta in
    if d.covered == 0 || d.total_delta == 0 then none else some d

pub record NumaNode : Type 0 where
  pub node : ℕ
  pub cpulist : Text
  pub cpus : List ℕ

-- `part / whole`
pub record Fraction : Type 0 where
  pub part : ℕ
  pub whole : ℕ

-- `_numa_node_usage_payload`; the utilization is a share of 1 in place of percents.
pub record NodeUsage : Type 0 where
  pub node : ℕ
  pub cpulist : Text
  pub online_cpus : ℕ
  pub utilization : Option Fraction
  pub busy_cores : Option Fraction

-- Times are microseconds.
pub record Sampler : Type 0 where
  pub nodes : List NumaNode
  pub user_hz : ℕ
  pub prev_ticks : Option Ticks
  pub prev_monotonic : ℕ

pub record Sample : Type 0 where
  pub available : Bool
  pub sampled : Bool
  pub node_count : ℕ
  pub window : Option ℕ
  pub user_hz : ℕ
  pub nodes : List NodeUsage

abbrev pub unknown_usage : NumaNode → NodeUsage
unknown_usage n = record {
  node = n.node;
  cpulist = n.cpulist;
  online_cpus = length n.cpus;
  utilization = none;
  busy_cores = none;
}

abbrev pub known_usage : (user_hz window : ℕ) → NumaNode → Delta → NodeUsage
known_usage user_hz window n d = record {
  node = n.node;
  cpulist = n.cpulist;
  online_cpus = d.covered;
  utilization = some (record { part = d.busy_delta; whole = d.total_delta });
  busy_cores =
      if ltb 0 window && ltb 0 user_hz
      then some (record { part = d.busy_delta * 1000000; whole = user_hz * window })
      else none;
}

abbrev pub usage_of : (user_hz window : ℕ) → NumaNode → Option Delta → NodeUsage
usage_of user_hz window n none = unknown_usage n
usage_of user_hz window n (some d) = known_usage user_hz window n d

unfoldable pub node_usage : (user_hz window : ℕ) → Ticks → Ticks → NumaNode → NodeUsage
node_usage user_hz window prev_ticks ticks n =
    usage_of user_hz window n (aggregate_node_delta n.cpus prev_ticks ticks)

abbrev pub is_nil : {A : Type 0} → List A → Bool
is_nil [] = true
is_nil (_ ∷ _) = false

abbrev pub unsampled : Ticks → Sampler → Sample
unsampled ticks s = record {
  available = not (is_nil ticks) && not (is_nil s.nodes);
  sampled = false;
  node_count = length s.nodes;
  window = none;
  user_hz = s.user_hz;
  nodes = map unknown_usage s.nodes;
}

abbrev pub sampled_over : (window : ℕ) → Ticks → Ticks → Sampler → Sample
sampled_over window prev_ticks ticks s = record {
  available = true;
  sampled = true;
  node_count = length s.nodes;
  window = some window;
  user_hz = s.user_hz;
  nodes = map (node_usage s.user_hz window prev_ticks ticks) s.nodes;
}

abbrev pub sample_from : Option Ticks → Ticks → (window : ℕ) → Sampler → Sample
sample_from none ticks window s = unsampled ticks s
sample_from (some prev_ticks) ticks window s =
    if is_nil ticks || is_nil s.nodes
    then unsampled ticks s
    else sampled_over window prev_ticks ticks s

-- `NumaCpuUsageSampler.__init__`, from what it reads.
abbrev pub new_sampler : List NumaNode → (user_hz : ℕ) → Ticks → (now : ℕ) → Sampler
new_sampler nodes user_hz ticks now = record {
  nodes = nodes;
  user_hz = user_hz;
  prev_ticks = some ticks;
  prev_monotonic = now;
}

-- `sample`, with the counters and the time that it reads.
unfoldable pub sample : Ticks → (now : ℕ) → Sampler → Sample × Sampler
sample ticks now s = (
  sample_from s.prev_ticks ticks (now - s.prev_monotonic) s,
  record s { prev_ticks = some ticks; prev_monotonic = now },
)
