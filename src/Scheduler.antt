-- ===== src/Scheduler.antt =====
-- pkg/scheduler/binpacking.go: what the cluster holds, which node takes a workload, and the packing.
pub mod Model
pub mod Select
pub mod Pack
pub mod Candidates
pub mod Least
pub mod Choice
pub mod Preference
pub mod Shares
pub mod Packing
pub mod Priority
pub mod Capacity
pub mod Report
pub mod Halves
mod Examples
pub mod Discover
