-- ===== src/Metrics.antt =====
-- The metrics of GPUs and what is wasted of them: pkg/metrics/collector.go.
pub mod Model
pub mod Collector
pub mod Waste
pub mod Owners
pub mod Unmeasured
mod Examples
