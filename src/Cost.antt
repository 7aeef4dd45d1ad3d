-- ===== src/Cost.antt =====
-- Prices and running costs: pkg/cost/pricing.go and pkg/cost/tracker.go.
pub mod Tables
pub mod Pricing
pub mod Cache
pub mod Estimates
pub mod Labels
pub mod Tracker
pub mod Active
pub mod Cleaning
pub mod Uncosted
pub mod Present
mod Examples
