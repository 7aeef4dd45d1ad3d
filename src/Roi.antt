-- ===== src/Roi.antt =====
-- The report on what the autoscaler has saved: pkg/cost/roi_reporter.go.
pub mod Model
pub mod Savings
pub mod Report
pub mod Agreement
mod Examples
