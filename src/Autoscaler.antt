-- ===== src/Autoscaler.antt =====
-- pkg/autoscaler/controller.go: what the cluster shows, what is decided, and what is carried out.
pub mod Model
pub mod Observe
pub mod Decide
pub mod Execute
pub mod Targets
pub mod Analysis
pub mod Removal
pub mod Draining
pub mod Waiting
pub mod MigPods
pub mod Growth
pub mod History
mod Examples
