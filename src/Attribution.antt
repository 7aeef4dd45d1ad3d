-- ===== src/Attribution.antt =====
-- What a team, a namespace or an experiment has spent: pkg/cost/attribution_controller.go.
pub mod Select
pub mod Model
pub mod Savings
pub mod Status
pub mod Reconcile
pub mod Matching
pub mod Names
pub mod Reported
pub mod Counted
mod Examples
