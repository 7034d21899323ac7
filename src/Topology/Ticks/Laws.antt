-- ===== src/Topology/Ticks/Laws.antt =====
-- The shares that the sampler reports.
use native.Mathlib.Decide.{ℕ_discrete}
use claw_tune.Base.{
  ℕ, ◌+◌, ◌-◌, ◌≤◌, ◌<◌, ◌≡◌, refl, Bool-cases, inl, inr, Bool, true, false, ◌||◌, Option, none,
  some, List, [], ◌∷◌, map, length, if◌then◌else◌, ◌==◌, arith,
}
use claw_tune.Dict.{get}
use claw_tune.Topology.Ticks.{
  CpuTicks, total, busy, Ticks, Delta, add_cpu, sum_deltas, no_delta, aggregate_node_delta,
  NumaNode, Fraction, NodeUsage, Sampler, unknown_usage, node_usage, is_nil, unsampled,
  sampled_over, sample,
}

-- The ticks that a CPU spent idle or waiting.
abbrev pub waiting : CpuTicks → ℕ
waiting t = t.idle + t.iowait

-- No CPU has waited less than at the sample before.
abbrev pub IsForward : Ticks → Ticks → Type 0
IsForward prev_ticks ticks =
    (cpu : ℕ) (before after : CpuTicks)
    → get ℕ_discrete cpu prev_ticks ≡ some before
    → get ℕ_discrete cpu ticks ≡ some after
    → waiting before ≤ waiting after

-- At most as many busy ticks as ticks, over at most `n` CPUs.
abbrev IsBounded : ℕ → Delta → Type 0
IsBounded n d = (d.busy_delta ≤ d.total_delta) × (d.covered ≤ n)

busy_le_total :
    (before after : CpuTicks)
    → waiting before ≤ waiting after
    → busy after - busy before ≤ total after - total before
busy_le_total before after h = omega (arith, h)

add_cpu-IsBounded :
    (n : ℕ) (before after : Option CpuTicks) (d : Delta)
    → ((b a : CpuTicks) → before ≡ some b → after ≡ some a → waiting b ≤ waiting a)
    → IsBounded n d
    → IsBounded (n + 1) (add_cpu before after d)
add_cpu-IsBounded n none after d f h = (h.0, omega (arith, h.1))
add_cpu-IsBounded n (some b) none d f h = (h.0, omega (arith, h.1))
add_cpu-IsBounded n (some b) (some a) d f h =
    (omega (arith, h.0, busy_le_total b a (f b a refl refl)), omega (arith, h.1))

abbrev pub IsShare : Option Fraction → Type 0
IsShare none = Unit
IsShare (some f) = (f.part ≤ f.whole) × (0 < f.whole)

-- The usage of a node: its number, no more CPUs than it has, and a share.
abbrev pub IsUsage : NumaNode → NodeUsage → Type 0
IsUsage n u = (u.node ≡ n.node) × (u.online_cpus ≤ length n.cpus) × IsShare u.utilization

-- A usage for each node, in order.
abbrev pub AreUsages : List NumaNode → List NodeUsage → Type 0
AreUsages [] [] = Unit
AreUsages (n ∷ ns) (u ∷ us) = IsUsage n u × AreUsages ns us
AreUsages _ _ = ⊥

module _ (prev_ticks ticks : Ticks) (forward : IsForward prev_ticks ticks) where
  sum_deltas-IsBounded :
      (cpus : List ℕ) (n : ℕ) (d : Delta)
      → IsBounded n d
      → IsBounded (n + length cpus) (sum_deltas cpus prev_ticks ticks d)
  unfolding sum_deltas
  sum_deltas-IsBounded [] n d h = (h.0, omega (arith, h.1))
  sum_deltas-IsBounded (cpu ∷ cpus) n d h =
      let k =
        sum_deltas-IsBounded cpus (n + 1)
          (add_cpu (get ℕ_discrete cpu prev_ticks) (get ℕ_discrete cpu ticks) d)
          (add_cpu-IsBounded n (get ℕ_discrete cpu prev_ticks) (get ℕ_discrete cpu ticks) d
            (forward cpu) h) in
      (k.0, omega (arith, k.1))

  unknown_usages : (ns : List NumaNode) → AreUsages ns (map unknown_usage ns)
  unknown_usages [] = tt
  unknown_usages (n ∷ ns) = ((refl, omega arith, tt), unknown_usages ns)

  node_usage-IsUsage :
      (user_hz window : ℕ) (n : NumaNode) → IsUsage n (node_usage user_hz window prev_ticks ticks n)
  unfolding node_usage aggregate_node_delta
  node_usage-IsUsage user_hz window n =
      let d = sum_deltas n.cpus prev_ticks ticks no_delta in
      let h : IsBounded (0 + length n.cpus) d =
        sum_deltas-IsBounded n.cpus 0 no_delta (omega arith, omega arith) in
      elim (Bool-cases (d.covered == 0 || d.total_delta == 0)) [
        | inl q ↦ rw q (refl, omega arith, tt)
        | inr q ↦ rw q (refl, omega (arith, h.1), (h.0, ground (arith, q)))
      ]

  node_usages :
      (user_hz window : ℕ) (ns : List NumaNode)
      → AreUsages ns (map (node_usage user_hz window prev_ticks ticks) ns)
  node_usages user_hz window [] = tt
  node_usages user_hz window (n ∷ ns) =
      (node_usage-IsUsage user_hz window n, node_usages user_hz window ns)

  -- Each sample has one entry per node, in order, whose share is at most one and whose CPUs are at most
  -- those of the node, if no CPU has waited less than at the sample before; and the next sample starts
  -- at the counters of this one.
  pub sample-AreUsages :
      (s : Sampler) (now : ℕ)
      → s.prev_ticks ≡ some prev_ticks
      → AreUsages s.nodes (sample ticks now s).0.nodes
        × ((sample ticks now s).1.prev_ticks ≡ some ticks)
  unfolding sample
  sample-AreUsages s now e = rw e (by_nil (is_nil ticks || is_nil s.nodes), refl)
    where
      by_nil :
          (b : Bool)
          → AreUsages s.nodes
              (if b
                then unsampled ticks s
                else sampled_over (now - s.prev_monotonic) prev_ticks ticks s).nodes
      by_nil true = unknown_usages s.nodes
      by_nil false = node_usages s.user_hz (now - s.prev_monotonic) s.nodes
