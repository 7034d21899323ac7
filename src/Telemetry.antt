-- ===== src/Telemetry.antt =====
-- services/sidecar/src/clawtune_sidecar/telemetry/metrics.py: `Metrics`, and the fields that it reads
-- of a `ToolRuntimeSample`. Python's numbers and how they are written are a parameter.
pub mod Totals
use Prim.Native.Char.{Char, code}
use claw_tune.Base.{
  ℕ, suc, ◌+◌, ◌==◌, Option, none, some, String, List, [], ◌∷◌, ◌++◌, length, if◌then◌else◌,
  string_discrete, ◌+++◌,
}
use claw_tune.Dict.{Dict, get, put}

-- What the code asks of numbers: `0`, `0.0`, `a + b`, and the texts `{x}` and `{x:.6f}`. A count
-- is an `int`.
pub record Numbers (A : Type 0) : Type 0 where
  pub zero_int : A
  pub zero_float : A
  pub plus : A → A → A
  pub show : A → String
  pub fixed : A → String
  pub show_count : ℕ → String

pub record Sample (A : Type 0) : Type 0 where
  pub attribution_status : String
  pub cpu_time_delta_s : Option A
  pub read_bytes_delta : Option A
  pub write_bytes_delta : Option A
  pub net_rx_bytes_delta : Option A
  pub net_tx_bytes_delta : Option A
  pub ctx_switches_delta : Option A
  pub rss_bytes_after : Option A
  pub rss_bytes_peak : Option A
  pub process_count_after : Option A
  pub cpu_utilization_avg_cores : Option A
  pub disk_read_bytes_per_s : Option A
  pub disk_write_bytes_per_s : Option A
  pub net_rx_bytes_per_s : Option A
  pub net_tx_bytes_per_s : Option A

pub record Metrics (A : Type 0) : Type 0 where
  pub counters : Dict String ℕ
  pub decision_latencies : List A
  pub tool_durations : List A
  pub admission_waits : List A
  pub tool_cpu_seconds_total : A
  pub tool_io_read_bytes_total : A
  pub tool_io_write_bytes_total : A
  pub tool_net_rx_bytes_total : A
  pub tool_net_tx_bytes_total : A
  pub tool_context_switches_total : A
  pub latest_tool_memory_rss_bytes : A
  pub latest_tool_memory_rss_peak_bytes : A
  pub latest_tool_process_count : A
  pub latest_tool_cpu_utilization_avg_cores : A
  pub latest_tool_io_read_bytes_per_second : A
  pub latest_tool_io_write_bytes_per_second : A
  pub latest_tool_net_rx_bytes_per_second : A
  pub latest_tool_net_tx_bytes_per_second : A

-- `status.replace("-", "_")`
unfoldable pub underscored : String → String
underscored String.[] = String.[]
underscored (String.◌∷◌ c s) =
    let rest = underscored s in if code c == b'-' then "_" +++ rest else String.◌∷◌ c rest

-- The counter of the samples with a status.
unfoldable pub status_counter : String → String
status_counter status = "scheduler_tool_runtime_" +++ (underscored status +++ "_samples_total")

-- `counters[name]`, where a counter that is not there is 0.
unfoldable pub count_of : String → Dict String ℕ → ℕ
count_of name counters = elim (get string_discrete name counters) [ none ↦ 0 | some k ↦ k ]

-- `counters[name] += 1`
unfoldable pub bump : String → Dict String ℕ → Dict String ℕ
bump name counters = put string_discrete name (suc (count_of name counters)) counters

-- The names that `render` writes counters for.
abbrev pub counter_names : List String
counter_names =
    "scheduler_tool_requests_total" ∷ "scheduler_tool_decisions_total"
    ∷ "scheduler_tool_completions_total" ∷ "scheduler_tool_runtime_samples_total"
    ∷ "scheduler_tool_runtime_pid_samples_total"
    ∷ "scheduler_tool_runtime_unattributed_samples_total"
    ∷ "scheduler_tool_runtime_pid_unavailable_samples_total" ∷ "scheduler_sidecar_errors_total"
    ∷ "scheduler_calibration_updates_total" ∷ []

-- `"\n".join(lines) + "\n"`, of one line or more.
unfoldable pub ended_lines : List String → String
ended_lines [] = ""
ended_lines (line ∷ rest) = line +++ ("\n" +++ ended_lines rest)

module _ {A : Type 0} (n : Numbers A) where
  -- `__init__`
  unfoldable pub new_metrics : Metrics A
  new_metrics = record {
    counters = [];
    decision_latencies = [];
    tool_durations = [];
    admission_waits = [];
    tool_cpu_seconds_total = n.zero_float;
    tool_io_read_bytes_total = n.zero_int;
    tool_io_write_bytes_total = n.zero_int;
    tool_net_rx_bytes_total = n.zero_int;
    tool_net_tx_bytes_total = n.zero_int;
    tool_context_switches_total = n.zero_int;
    latest_tool_memory_rss_bytes = n.zero_int;
    latest_tool_memory_rss_peak_bytes = n.zero_int;
    latest_tool_process_count = n.zero_int;
    latest_tool_cpu_utilization_avg_cores = n.zero_float;
    latest_tool_io_read_bytes_per_second = n.zero_float;
    latest_tool_io_write_bytes_per_second = n.zero_float;
    latest_tool_net_rx_bytes_per_second = n.zero_float;
    latest_tool_net_tx_bytes_per_second = n.zero_float;
  }

  -- `inc`
  unfoldable pub inc : String → Metrics A → Metrics A
  inc name m = record m { counters = bump name m.counters }

  -- `if delta is not None: total += delta`
  unfoldable pub plus_present : Option A → A → A
  plus_present none total = total
  plus_present (some delta) total = n.plus total delta

  -- `if value is not None: latest = value`
  unfoldable pub last_present : Option A → A → A
  last_present none latest = latest
  last_present (some value) latest = value

  -- `observe_tool_runtime`
  unfoldable pub observe_tool_runtime : Sample A → Metrics A → Metrics A
  observe_tool_runtime sample m = record m {
    counters =
        bump (status_counter sample.attribution_status)
          (bump "scheduler_tool_runtime_samples_total" m.counters);
    tool_cpu_seconds_total = plus_present sample.cpu_time_delta_s m.tool_cpu_seconds_total;
    tool_io_read_bytes_total = plus_present sample.read_bytes_delta m.tool_io_read_bytes_total;
    tool_io_write_bytes_total = plus_present sample.write_bytes_delta m.tool_io_write_bytes_total;
    tool_net_rx_bytes_total = plus_present sample.net_rx_bytes_delta m.tool_net_rx_bytes_total;
    tool_net_tx_bytes_total = plus_present sample.net_tx_bytes_delta m.tool_net_tx_bytes_total;
    tool_context_switches_total =
        plus_present sample.ctx_switches_delta m.tool_context_switches_total;
    latest_tool_memory_rss_bytes =
        last_present sample.rss_bytes_after m.latest_tool_memory_rss_bytes;
    latest_tool_memory_rss_peak_bytes =
        last_present sample.rss_bytes_peak m.latest_tool_memory_rss_peak_bytes;
    latest_tool_process_count = last_present sample.process_count_after m.latest_tool_process_count;
    latest_tool_cpu_utilization_avg_cores =
        last_present sample.cpu_utilization_avg_cores m.latest_tool_cpu_utilization_avg_cores;
    latest_tool_io_read_bytes_per_second =
        last_present sample.disk_read_bytes_per_s m.latest_tool_io_read_bytes_per_second;
    latest_tool_io_write_bytes_per_second =
        last_present sample.disk_write_bytes_per_s m.latest_tool_io_write_bytes_per_second;
    latest_tool_net_rx_bytes_per_second =
        last_present sample.net_rx_bytes_per_s m.latest_tool_net_rx_bytes_per_second;
    latest_tool_net_tx_bytes_per_second =
        last_present sample.net_tx_bytes_per_s m.latest_tool_net_tx_bytes_per_second;
  }

  -- `sum(xs)`
  unfoldable pub sum_from : A → List A → A
  sum_from total [] = total
  sum_from total (x ∷ xs) = sum_from (n.plus total x) xs

  abbrev pub sum : List A → A
  sum xs = sum_from n.zero_int xs

  -- The two lines of each counter.
  unfoldable pub counter_lines : List String → Dict String ℕ → List String
  counter_lines [] counters = []
  counter_lines (name ∷ names) counters =
      ("# TYPE " +++ (name +++ " counter"))
      ∷ (name +++ (" " +++ n.show_count (count_of name counters)))
      ∷ counter_lines names counters

  -- The lines of the other metrics.
  unfoldable pub other_lines :
      (active_leases active_tool_monitors active_lease_mcpu : ℕ) → Metrics A → List String
  other_lines active_leases active_tool_monitors active_lease_mcpu m =
      "# TYPE scheduler_active_leases gauge"
      ∷ ("scheduler_active_leases " +++ n.show_count active_leases)
      ∷ "# TYPE scheduler_active_lease_millicores gauge"
      ∷ ("scheduler_active_lease_millicores " +++ n.show_count active_lease_mcpu)
      ∷ "# TYPE scheduler_active_tool_monitors gauge"
      ∷ ("scheduler_active_tool_monitors " +++ n.show_count active_tool_monitors)
      ∷ "# TYPE scheduler_tool_cpu_seconds_total counter"
      ∷ ("scheduler_tool_cpu_seconds_total " +++ n.fixed m.tool_cpu_seconds_total)
      ∷ "# TYPE scheduler_tool_memory_rss_bytes gauge"
      ∷ ("scheduler_tool_memory_rss_bytes " +++ n.show m.latest_tool_memory_rss_bytes)
      ∷ "# TYPE scheduler_tool_memory_rss_peak_bytes gauge"
      ∷ ("scheduler_tool_memory_rss_peak_bytes " +++ n.show m.latest_tool_memory_rss_peak_bytes)
      ∷ "# TYPE scheduler_tool_process_count gauge"
      ∷ ("scheduler_tool_process_count " +++ n.show m.latest_tool_process_count)
      ∷ "# TYPE scheduler_tool_cpu_utilization_avg_cores gauge"
      ∷ ("scheduler_tool_cpu_utilization_avg_cores "
          +++ n.fixed m.latest_tool_cpu_utilization_avg_cores)
      ∷ "# TYPE scheduler_tool_io_read_bytes_total counter"
      ∷ ("scheduler_tool_io_read_bytes_total " +++ n.show m.tool_io_read_bytes_total)
      ∷ "# TYPE scheduler_tool_io_write_bytes_total counter"
      ∷ ("scheduler_tool_io_write_bytes_total " +++ n.show m.tool_io_write_bytes_total)
      ∷ "# TYPE scheduler_tool_io_read_bytes_per_second gauge"
      ∷ ("scheduler_tool_io_read_bytes_per_second "
          +++ n.fixed m.latest_tool_io_read_bytes_per_second)
      ∷ "# TYPE scheduler_tool_io_write_bytes_per_second gauge"
      ∷ ("scheduler_tool_io_write_bytes_per_second "
          +++ n.fixed m.latest_tool_io_write_bytes_per_second)
      ∷ "# TYPE scheduler_tool_net_rx_bytes_total counter"
      ∷ ("scheduler_tool_net_rx_bytes_total " +++ n.show m.tool_net_rx_bytes_total)
      ∷ "# TYPE scheduler_tool_net_tx_bytes_total counter"
      ∷ ("scheduler_tool_net_tx_bytes_total " +++ n.show m.tool_net_tx_bytes_total)
      ∷ "# TYPE scheduler_tool_net_rx_bytes_per_second gauge"
      ∷ ("scheduler_tool_net_rx_bytes_per_second "
          +++ n.fixed m.latest_tool_net_rx_bytes_per_second)
      ∷ "# TYPE scheduler_tool_net_tx_bytes_per_second gauge"
      ∷ ("scheduler_tool_net_tx_bytes_per_second "
          +++ n.fixed m.latest_tool_net_tx_bytes_per_second)
      ∷ "# TYPE scheduler_tool_context_switches_total counter"
      ∷ ("scheduler_tool_context_switches_total " +++ n.show m.tool_context_switches_total)
      ∷ "# TYPE scheduler_decision_latency_seconds summary"
      ∷ ("scheduler_decision_latency_seconds_count " +++ n.show_count (length m.decision_latencies))
      ∷ ("scheduler_decision_latency_seconds_sum " +++ n.fixed (sum m.decision_latencies))
      ∷ "# TYPE scheduler_tool_duration_seconds summary"
      ∷ ("scheduler_tool_duration_seconds_count " +++ n.show_count (length m.tool_durations))
      ∷ ("scheduler_tool_duration_seconds_sum " +++ n.fixed (sum m.tool_durations))
      ∷ "# TYPE scheduler_admission_wait_seconds summary"
      ∷ ("scheduler_admission_wait_seconds_count " +++ n.show_count (length m.admission_waits))
      ∷ ("scheduler_admission_wait_seconds_sum " +++ n.fixed (sum m.admission_waits))
      ∷ []

  -- `render`
  unfoldable pub render :
      (active_leases active_tool_monitors active_lease_mcpu : ℕ) → Metrics A → String
  render active_leases active_tool_monitors active_lease_mcpu m = ended_lines (
      counter_lines counter_names m.counters
      ++ other_lines active_leases active_tool_monitors active_lease_mcpu m)
