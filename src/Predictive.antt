-- ===== src/Predictive.antt =====
-- pkg/autoscaler/predictive_scaler.go: the patterns of a week, and the forecast that is made from them.
pub mod Model
pub mod Patterns
pub mod Forecast
pub mod Sampling
pub mod Silence
pub mod Neglect
pub mod Similar
mod Examples
