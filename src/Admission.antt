-- ===== src/Admission.antt =====
-- services/sidecar/src/clawtune_sidecar/admission and policies: who may run a tool now.
pub mod Leases
pub mod Millis
pub mod Policy
