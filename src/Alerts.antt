-- ===== src/Alerts.antt =====
-- The messages about a budget: pkg/cost/alerter.go.
pub mod Send
pub mod Sent
mod Examples
