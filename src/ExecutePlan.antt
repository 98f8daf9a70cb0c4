-- ===== src/ExecutePlan.antt =====
-- backend/orchestrator/nodes/execute_plan.py: the subqueries of a plan, run in waves.
-- `Outcomes` has the results that are passed on, `Subqueries` one subquery, `Waves` the loop.
mod Outcomes
mod Subqueries
mod Waves
pub mod Raised
pub mod Termination
pub mod Outcome
pub mod Severity
pub mod Dependencies
unfoldable pub use Outcomes.*
unfoldable pub use Subqueries.*
unfoldable pub use Waves.*
