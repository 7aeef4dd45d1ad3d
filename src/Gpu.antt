-- ===== src/Gpu.antt =====
-- The controller of GPU pods: pkg/controller/gpu_controller.go.
pub mod Controller
pub mod Analyses
pub mod Answers
pub mod Unseen
mod Examples
