-- ===== src/Telemetry/Totals.antt =====
-- What the metrics hold after a sequence of samples.
use claw_tune.Base.{
  ℕ, suc, ◌+◌, ◌≡◌, refl, ◌∙◌, Option, none, some, String, List, [], ◌∷◌, if◌then◌else◌, is_yes,
  string_discrete, arith,
}
use claw_tune.Dict.{Dict}
use claw_tune.Dict.Laws.{get-put_self, get-put_ne}
use claw_tune.Telemetry.{
  Numbers, Sample, Metrics, status_counter, count_of, bump, plus_present, last_present,
  observe_tool_runtime, sum_from,
}

-- How often a name is counted for samples: once for each with its status, and once for each
-- sample if it is the counter of all.
unfoldable pub times : {A : Type 0} → String → List (Sample A) → ℕ
times name [] = 0
times name (s ∷ ss) =
    (if is_yes (string_discrete "scheduler_tool_runtime_samples_total" name) then 1 else 0)
    + (if is_yes (string_discrete (status_counter s.attribution_status) name) then 1 else 0)
    + times name ss

count_of-bump :
    (name key : String) (counters : Dict String ℕ)
    → count_of name (bump key counters)
      ≡ (if is_yes (string_discrete key name) then 1 else 0) + count_of name counters
unfolding count_of bump
count_of-bump name key counters = elim (string_discrete key name) [
  | yes p ↦
      ground (arith, p, get-put_self string_discrete key (suc (count_of key counters)) counters)
  | no d ↦ ground (
    arith,
    d,
    get-put_ne string_discrete {j = name} {k = key} (suc (count_of key counters)) counters d,
  )
]

module _ {A : Type 0} (n : Numbers A) where
  -- The samples observed one after the other.
  unfoldable pub observe_all : List (Sample A) → Metrics A → Metrics A
  observe_all [] m = m
  observe_all (s ∷ ss) m = observe_all ss (observe_tool_runtime n s m)

  -- What is present among the values of a field, in order.
  unfoldable pub cons_present : Option A → List A → List A
  cons_present none xs = xs
  cons_present (some x) xs = x ∷ xs

  unfoldable pub present : (Sample A → Option A) → List (Sample A) → List A
  present f [] = []
  present f (s ∷ ss) = cons_present (f s) (present f ss)

  unfoldable pub last_or : A → List A → A
  last_or x [] = x
  last_or x (y ∷ ys) = last_or y ys

  total_step :
      (o : Option A) (x : A) (xs : List A)
      → sum_from n (plus_present n o x) xs ≡ sum_from n x (cons_present o xs)
  unfolding sum_from cons_present plus_present
  total_step none x xs = refl
  total_step (some d) x xs = refl

  latest_step :
      (o : Option A) (x : A) (xs : List A)
      → last_or (last_present n o x) xs ≡ last_or x (cons_present o xs)
  unfolding last_or cons_present last_present
  latest_step none x xs = refl
  latest_step (some y) x xs = refl

  -- The metrics `after` samples that were observed with the metrics `m`.
  pub record Reflects (m : Metrics A) (ss : List (Sample A)) (after : Metrics A) : Type 0 where
    pub counted :
        (name : String) → count_of name after.counters ≡ count_of name m.counters + times name ss
    pub tool_cpu_seconds_total_is :
        after.tool_cpu_seconds_total
        ≡ sum_from n m.tool_cpu_seconds_total (present (λ s. s.cpu_time_delta_s) ss)
    pub tool_io_read_bytes_total_is :
        after.tool_io_read_bytes_total
        ≡ sum_from n m.tool_io_read_bytes_total (present (λ s. s.read_bytes_delta) ss)
    pub tool_io_write_bytes_total_is :
        after.tool_io_write_bytes_total
        ≡ sum_from n m.tool_io_write_bytes_total (present (λ s. s.write_bytes_delta) ss)
    pub tool_net_rx_bytes_total_is :
        after.tool_net_rx_bytes_total
        ≡ sum_from n m.tool_net_rx_bytes_total (present (λ s. s.net_rx_bytes_delta) ss)
    pub tool_net_tx_bytes_total_is :
        after.tool_net_tx_bytes_total
        ≡ sum_from n m.tool_net_tx_bytes_total (present (λ s. s.net_tx_bytes_delta) ss)
    pub tool_context_switches_total_is :
        after.tool_context_switches_total
        ≡ sum_from n m.tool_context_switches_total (present (λ s. s.ctx_switches_delta) ss)
    pub latest_tool_memory_rss_bytes_is :
        after.latest_tool_memory_rss_bytes
        ≡ last_or m.latest_tool_memory_rss_bytes (present (λ s. s.rss_bytes_after) ss)
    pub latest_tool_memory_rss_peak_bytes_is :
        after.latest_tool_memory_rss_peak_bytes
        ≡ last_or m.latest_tool_memory_rss_peak_bytes (present (λ s. s.rss_bytes_peak) ss)
    pub latest_tool_process_count_is :
        after.latest_tool_process_count
        ≡ last_or m.latest_tool_process_count (present (λ s. s.process_count_after) ss)
    pub latest_tool_cpu_utilization_avg_cores_is :
        after.latest_tool_cpu_utilization_avg_cores
        ≡ last_or m.latest_tool_cpu_utilization_avg_cores
            (present (λ s. s.cpu_utilization_avg_cores) ss)
    pub latest_tool_io_read_bytes_per_second_is :
        after.latest_tool_io_read_bytes_per_second
        ≡ last_or m.latest_tool_io_read_bytes_per_second (present (λ s. s.disk_read_bytes_per_s) ss)
    pub latest_tool_io_write_bytes_per_second_is :
        after.latest_tool_io_write_bytes_per_second
        ≡ last_or m.latest_tool_io_write_bytes_per_second
            (present (λ s. s.disk_write_bytes_per_s) ss)
    pub latest_tool_net_rx_bytes_per_second_is :
        after.latest_tool_net_rx_bytes_per_second
        ≡ last_or m.latest_tool_net_rx_bytes_per_second (present (λ s. s.net_rx_bytes_per_s) ss)
    pub latest_tool_net_tx_bytes_per_second_is :
        after.latest_tool_net_tx_bytes_per_second
        ≡ last_or m.latest_tool_net_tx_bytes_per_second (present (λ s. s.net_tx_bytes_per_s) ss)
    pub decision_latencies_is : after.decision_latencies ≡ m.decision_latencies
    pub tool_durations_is : after.tool_durations ≡ m.tool_durations
    pub admission_waits_is : after.admission_waits ≡ m.admission_waits

  -- After samples are observed, each counter has grown by the number of samples that it counts, each
  -- total is the sum from the left of its old value and the deltas that are present, and each latest value is that of the
  -- last sample that has one. The lists of waits and durations are unchanged.
  pub observe_all-Reflects :
      (ss : List (Sample A)) (m : Metrics A) → Reflects m ss (observe_all ss m)
  unfolding observe_all present last_or sum_from times observe_tool_runtime
  observe_all-Reflects [] m = record {
    counted = λ name. omega arith;
    tool_cpu_seconds_total_is = refl;
    tool_io_read_bytes_total_is = refl;
    tool_io_write_bytes_total_is = refl;
    tool_net_rx_bytes_total_is = refl;
    tool_net_tx_bytes_total_is = refl;
    tool_context_switches_total_is = refl;
    latest_tool_memory_rss_bytes_is = refl;
    latest_tool_memory_rss_peak_bytes_is = refl;
    latest_tool_process_count_is = refl;
    latest_tool_cpu_utilization_avg_cores_is = refl;
    latest_tool_io_read_bytes_per_second_is = refl;
    latest_tool_io_write_bytes_per_second_is = refl;
    latest_tool_net_rx_bytes_per_second_is = refl;
    latest_tool_net_tx_bytes_per_second_is = refl;
    decision_latencies_is = refl;
    tool_durations_is = refl;
    admission_waits_is = refl;
  }
  observe_all-Reflects (s ∷ ss) m =
      let rest = observe_all-Reflects ss (observe_tool_runtime n s m) in
      record {
        counted = λ name. omega (
          arith,
          rest.counted name,
          count_of-bump name (status_counter s.attribution_status)
              (bump "scheduler_tool_runtime_samples_total" m.counters),
          count_of-bump name "scheduler_tool_runtime_samples_total" m.counters,
        );
        tool_cpu_seconds_total_is =
            rest.tool_cpu_seconds_total_is
            ∙ total_step s.cpu_time_delta_s m.tool_cpu_seconds_total
                (present (λ t. t.cpu_time_delta_s) ss);
        tool_io_read_bytes_total_is =
            rest.tool_io_read_bytes_total_is
            ∙ total_step s.read_bytes_delta m.tool_io_read_bytes_total
                (present (λ t. t.read_bytes_delta) ss);
        tool_io_write_bytes_total_is =
            rest.tool_io_write_bytes_total_is
            ∙ total_step s.write_bytes_delta m.tool_io_write_bytes_total
                (present (λ t. t.write_bytes_delta) ss);
        tool_net_rx_bytes_total_is =
            rest.tool_net_rx_bytes_total_is
            ∙ total_step s.net_rx_bytes_delta m.tool_net_rx_bytes_total
                (present (λ t. t.net_rx_bytes_delta) ss);
        tool_net_tx_bytes_total_is =
            rest.tool_net_tx_bytes_total_is
            ∙ total_step s.net_tx_bytes_delta m.tool_net_tx_bytes_total
                (present (λ t. t.net_tx_bytes_delta) ss);
        tool_context_switches_total_is =
            rest.tool_context_switches_total_is
            ∙ total_step s.ctx_switches_delta m.tool_context_switches_total
                (present (λ t. t.ctx_switches_delta) ss);
        latest_tool_memory_rss_bytes_is =
            rest.latest_tool_memory_rss_bytes_is
            ∙ latest_step s.rss_bytes_after m.latest_tool_memory_rss_bytes
                (present (λ t. t.rss_bytes_after) ss);
        latest_tool_memory_rss_peak_bytes_is =
            rest.latest_tool_memory_rss_peak_bytes_is
            ∙ latest_step s.rss_bytes_peak m.latest_tool_memory_rss_peak_bytes
                (present (λ t. t.rss_bytes_peak) ss);
        latest_tool_process_count_is =
            rest.latest_tool_process_count_is
            ∙ latest_step s.process_count_after m.latest_tool_process_count
                (present (λ t. t.process_count_after) ss);
        latest_tool_cpu_utilization_avg_cores_is =
            rest.latest_tool_cpu_utilization_avg_cores_is
            ∙ latest_step s.cpu_utilization_avg_cores m.latest_tool_cpu_utilization_avg_cores
                (present (λ t. t.cpu_utilization_avg_cores) ss);
        latest_tool_io_read_bytes_per_second_is =
            rest.latest_tool_io_read_bytes_per_second_is
            ∙ latest_step s.disk_read_bytes_per_s m.latest_tool_io_read_bytes_per_second
                (present (λ t. t.disk_read_bytes_per_s) ss);
        latest_tool_io_write_bytes_per_second_is =
            rest.latest_tool_io_write_bytes_per_second_is
            ∙ latest_step s.disk_write_bytes_per_s m.latest_tool_io_write_bytes_per_second
                (present (λ t. t.disk_write_bytes_per_s) ss);
        latest_tool_net_rx_bytes_per_second_is =
            rest.latest_tool_net_rx_bytes_per_second_is
            ∙ latest_step s.net_rx_bytes_per_s m.latest_tool_net_rx_bytes_per_second
                (present (λ t. t.net_rx_bytes_per_s) ss);
        latest_tool_net_tx_bytes_per_second_is =
            rest.latest_tool_net_tx_bytes_per_second_is
            ∙ latest_step s.net_tx_bytes_per_s m.latest_tool_net_tx_bytes_per_second
                (present (λ t. t.net_tx_bytes_per_s) ss);
        decision_latencies_is = rest.decision_latencies_is;
        tool_durations_is = rest.tool_durations_is;
        admission_waits_is = rest.admission_waits_is;
      }
