-- ===== src/Database.antt =====
-- The records of costs, savings and budgets: pkg/cost/timescaledb.go. A table is the list of its rows,
-- and a function does what its SQL statement says.
pub mod Costs
pub mod Latest
pub mod Repeated
pub mod Savings
pub mod History
pub mod Recorded
pub mod Series
mod Examples
