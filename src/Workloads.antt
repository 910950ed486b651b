-- ===== src/Workloads.antt =====
-- Native workloads for Pods (pkg/maclet/workload_status.go and its neighbours): the status that a Pod
-- gets, and its update at the API server.
pub mod Pods
pub mod Names
pub mod Status
pub mod Update
pub mod Managed
pub mod Removal
pub mod Journal
pub mod Reconcile
pub mod Mounts
pub mod Arguments
pub mod Environment
