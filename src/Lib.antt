-- ===== src/Lib.antt =====
-- ClawTune: the decision core of the sidecar.
--
-- The sidecar of ClawTune stands beside an agent's gateway. Before a tool runs, its policy asks the
-- lease manager for a lease, which bounds how many tools run at once and how much CPU they reserve;
-- the execution registry then hands a one-time token to the launcher, which claims the execution
-- with it and reports its start and its end. An owner chain ties leases and executions to a gateway,
-- a runtime, an agent, a session and a run. The prediction that the policy reads is summarized from
-- samples and validated against a contract; the metrics count the samples of running tools. The
-- command parser turns a command into features, and the containment indexes find knowledge by
-- features. Beside these, the KV-TTL evaluation computes when the cache of a paused call is evicted.
-- All paths below are in services/sidecar/src.
--
--   Base, Dict            shared names; a Python dict as a list of entries in insertion order
--   Identity              clawtune_sidecar/identity.py: owner_key, owners_compatible, call_key, ...
--   Admission/Leases      clawtune_sidecar/admission/leases.py: LeaseManager. `try_acquire` is one
--                         round of the loop of `acquire`; Ops has the loop and the methods as steps
--   Admission/Millis      clawtune_sidecar/policies/concurrency.py: _predicted_cpu_millis
--   Admission/Policy      clawtune_sidecar/policies: ConcurrencyPolicy, ObserveOnlyPolicy
--   Executions            clawtune_sidecar/executions.py: ExecutionRegistry. Calls has register and
--                         claim, Reports what changes a known execution, Queries what only looks,
--                         Machine all methods as steps; the records are those of
--                         clawtune_sidecar/contracts/models.py
--   KvTtl                 tool_resource/kv_ttl.py
--   Superset, Subset      kb_common/feature_index.py: SupersetIndex and the trie of SubsetIndex
--   Load                  clawtune_sidecar/predictors/call_load.py: Samples has the statistics,
--                         Summary `summarize`, Groups the stages that run at once, with
--                         is_pipeline_dependent_consumer of tool_resource/runtime_kb.py;
--                         clawtune_sidecar/contracts/load_prediction.py: Contract has the models of
--                         load and their validators, Pmu those of the PMU and their summary;
--                         clawtune_sidecar/prediction_config.py: Edges
--   Telemetry             clawtune_sidecar/telemetry/metrics.py: Metrics
--   Command               command_parser/parser.py: CommandParser. Words asks about one word, Grammar
--                         has the rules, Result the result and the layers, Options the options of a
--                         word, Guess `heuristic`, Reading the loop of `invoke`, Parser the whole.
--                         Registry is registry.py (`add` and the choice of a rule), Validation the
--                         `validate_rule` of validation.py, which `add` calls, Features the
--                         CommandFeatures of models.py, Projection the `project` of projection.py
--   Topology              clawtune_sidecar/topology/linux.py. Text models what the code uses of Python's
--                         text; CpuList the parser and the printer of CPU lists, with a set as the
--                         ascending list of its elements; Ticks CpuTicks and NumaCpuUsageSampler, with
--                         quotients as fractions; Caches the first loop of _read_llc_clusters;
--                         Nodes the lists of NUMA nodes and the effective CPUs;
--                         Quota the quota of the cgroups and the options of the capacity
--   Examples              concrete inputs on which the theorems are applied
--
-- State is passed explicitly: a method takes the state and returns its answer beside the new state,
-- and an exception is a value beside the state that it leaves. Readings of the clock, new
-- identifiers and new tokens are arguments, so a theorem holds for all of them. Times are natural
-- numbers of microseconds, where the lease manager has floats of seconds. A float of the KV-TTL code
-- is nan, an infinity or an exact value in units of 2^-1074; the code only compares and copies them,
-- so nothing is rounded.
--
-- Each method of the lease manager runs under its lock, so it is one step. The loop of `acquire`
-- gives the lock back between its rounds: its rounds are a list, each with the calls that other
-- tasks make during its sleep. The list plays the part of fuel: it is long enough as soon as some
-- round reads the clock at the deadline. The loop over the buckets of kv_ttl.py has one turn for each
-- bucket that is left, as in the code.
--
-- The calls of `invoke` in parser.py end the layer that makes them, so the parser is one machine whose
-- steps read words; it has fuel for 2n+1 steps on n words, since each step reads a word or begins a
-- layer with a word that was read. The fuel of `str` is the number itself, one round per digit. The
-- loop over the stack of SubsetIndex has one round for each dict of its trie, since no dict is pushed
-- twice.
--
-- Parameters: `Stored`, the type of what the registry only stores or compares (placements, profiles,
-- the float of a timeout), with a decision of equality; `Numbers`, Python's numbers as the policy
-- tests them, with the two places where a number is too large for a float; json.dumps and sha256 in `call_key`; for the parser a `lookup` of rules (Registry has
-- the one of the code), `script_identity`, which words are `unresolved` (Command/Words has the test of
-- the word intents), and of Python's library float, str.isidentifier and PurePosixPath.name; for the
-- registry the digest, the size and the JSON schema of a rule and the evidence about a script; for
-- `project` the JSON text and the hashes; for the metrics the numbers and how they are written; for
-- the predictions of load `Arithmetic`: the mean, the half of a sum, the quotient of two counts and
-- the test that probabilities sum to one, with `ArithmeticLaws`, which rounding to the nearest float
-- keeps. Samples that are finite and not negative are counts of units of 2^-1074.
--
-- Not modelled: the HTTP handlers, the launcher and the monitoring (operating system and network),
-- the other predictors and knowledge bases (floating-point statistics, a vendored library), the
-- composition of load over random draws and its cache, the cache files of the rule registry, of the
-- CPU topology what reads /sys and /proc, the list of the cache clusters and the CPU budget,
-- the benchmark runners, and the TypeScript plugin. `int` leaves out the decimal digits of other
-- scripts, as does the test of Python's versions, and Python's limit of 4300 digits.
pub mod Base
pub mod Dict
pub mod Identity
pub mod Admission
pub mod Executions
pub mod KvTtl
pub mod Load
pub mod Subset
pub mod Superset
pub mod Command
pub mod Telemetry
pub mod Topology
mod Examples
