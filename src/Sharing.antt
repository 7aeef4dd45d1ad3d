-- ===== src/Sharing.antt =====
-- pkg/sharing/mig.go: the profiles of multi-instance GPUs, the choice of one, and the conversion of pods.
pub mod Mig
pub mod Profiles
pub mod Conversion
pub mod Mps
pub mod TimeSlicing
pub mod Savings
pub mod Kept
pub mod Nodes
mod Examples
