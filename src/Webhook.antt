-- ===== src/Webhook.antt =====
-- pkg/webhook/mutating_webhook.go: the admission of pods and the optimization of their GPU requests.
pub mod Handler
pub mod Panics
pub mod Strategy
mod Examples
