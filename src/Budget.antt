-- ===== src/Budget.antt =====
-- pkg/cost/budget_controller.go: what a budget's scope has spent, its status, its alerts and what is
-- done when it is exceeded.
pub mod Model
pub mod Spend
pub mod Status
pub mod Enforce
pub mod Reconcile
pub mod Streak
pub mod Alerts
pub mod Enforcement
pub mod Throttle
pub mod Breakdown
pub mod Monitoring
mod Examples
