-- ===== src/Spot.antt =====
-- pkg/autoscaler/spot_orchestrator.go: the warnings of terminations, the evictions, and the market.
pub mod Model
pub mod Evict
pub mod Market
pub mod Steps
pub mod Notices
pub mod Checks
pub mod Workers
pub mod Abandoned
pub mod Priorities
mod Examples
