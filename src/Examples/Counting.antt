-- ===== src/Examples/Counting.antt =====
-- Samples that are counted, stages that are grouped, and nodes that are indexed.
use native.Mathlib.Decide.{ℕ_discrete}
use claw_tune.Base.{
  refl, string_discrete, ℤ_discrete, sort_by, insert_by, ℕ, ◌+◌, ◌≡◌, ◌↔◌, leb, pos, negsuc, true,
  false, none, some, is_some, List, [], ◌∷◌, In,
}
use claw_tune.Telemetry.{Numbers, Sample, new_metrics}
use claw_tune.Telemetry.Totals.{Reflects, observe_all, observe_all-Reflects}
use claw_tune.Superset.{insert, has}
use claw_tune.Load.Groups.{
  Clause, composition_groups, group_loop, open_group, is_connected, is_dependent, is_one_of,
  append_last, nonempty,
}
use claw_tune.Load.Groups.Laws.{fits, Partitions, composition_groups-Partitions}
use claw_tune.Subset.{
  found, subset_loop, weight, add_nodes, add, add_terminal, last_child, as_branch, get_child,
  put_child, set_of, chosen, by_features, by_items, cons_child, count, visit, with_terminal,
  Terminal, new_index, subsets, nodes_of,
}
use claw_tune.Subset.Refines.{IsAscending, Listed, subsets-refines}

abbrev counts : Numbers ℕ
counts = record {
  zero_int = 0;
  zero_float = 0;
  plus = λ a b. a + b;
  show = λ _. "n";
  fixed = λ _. "n";
  show_count = λ _. "n";
}

abbrev one_sample : Sample ℕ
one_sample = record {
  attribution_status = "pid-unavailable";
  cpu_time_delta_s = some 0;
  read_bytes_delta = some 1;
  write_bytes_delta = none;
  net_rx_bytes_delta = some 3;
  net_tx_bytes_delta = some 4;
  ctx_switches_delta = none;
  rss_bytes_after = some 6;
  rss_bytes_peak = some 7;
  process_count_after = none;
  cpu_utilization_avg_cores = some 9;
  disk_read_bytes_per_s = some 10;
  disk_write_bytes_per_s = none;
  net_rx_bytes_per_s = some 12;
  net_tx_bytes_per_s = some 13;
}

observe_all-Reflects_example :
    Reflects counts
      (new_metrics counts)
      (one_sample ∷ one_sample ∷ [])
      (observe_all counts (one_sample ∷ one_sample ∷ []) (new_metrics counts))
observe_all-Reflects_example =
    observe_all-Reflects counts (one_sample ∷ one_sample ∷ []) (new_metrics counts)

-- `make | tee log; ls`
abbrev stages : List Clause
stages =
    record { bin = "make"; in_pipe = true; pipeline_position = pos 0 }
    ∷ record { bin = "tee"; in_pipe = true; pipeline_position = pos 1 }
    ∷ record { bin = "ls"; in_pipe = false; pipeline_position = negsuc 0 }
    ∷ []

composition_groups-Partitions_example :
    (is_some (composition_groups stages 2) ≡ fits stages 2)
    × Partitions 2 (composition_groups stages 2)
composition_groups-Partitions_example = composition_groups-Partitions stages 2

abbrev nodes : List (List ℕ)
nodes = (2 ∷ 1 ∷ []) ∷ (2 ∷ []) ∷ (3 ∷ 1 ∷ []) ∷ (1 ∷ 2 ∷ []) ∷ []

subsets-refines_example :
    (ts : List (Terminal ℕ)) × (subsets ℕ_discrete (1 ∷ 2 ∷ []) (new_index ℕ_discrete leb nodes)
      ≡ some (nodes_of ts))
    × IsAscending ts
    × ((t : Terminal ℕ) → In t ts ↔ Listed ℕ_discrete leb nodes (1 ∷ 2 ∷ []) t)
subsets-refines_example = subsets-refines ℕ_discrete leb nodes (1 ∷ 2 ∷ [])

-- The consumer of the pipe is left out, and `ls` runs after it.
grouped : composition_groups stages 2 ≡ some ((0 ∷ []) ∷ (1 ∷ []) ∷ [])
unfolding composition_groups group_loop open_group is_connected is_dependent is_one_of
    string_discrete append_last nonempty ℤ_discrete ℕ_discrete
grouped = refl

-- The last node has the features of the first, in another order, and takes its place.
listed :
    subsets ℕ_discrete (1 ∷ 2 ∷ []) (new_index ℕ_discrete leb nodes)
    ≡ some ((2 ∷ []) ∷ (1 ∷ 2 ∷ []) ∷ [])
unfolding subsets found subset_loop weight new_index add_nodes add add_terminal last_child as_branch
    get_child put_child set_of insert has chosen by_features by_items cons_child count visit
    with_terminal nodes_of sort_by insert_by ℕ_discrete
listed = refl
