-- ===== src/Workloads.antt =====
-- src/runtime/resources: the admission of workloads on one machine.
pub mod Queue
pub mod Capacity
pub mod Admission
