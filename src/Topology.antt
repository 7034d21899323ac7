-- ===== src/Topology.antt =====
-- The CPUs of the host (clawtune_sidecar/topology/linux.py).
pub mod Text
pub mod CpuList
pub mod Ticks
pub mod Caches
pub mod Nodes
pub mod Quota
