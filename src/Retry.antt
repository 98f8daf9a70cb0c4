-- ===== src/Retry.antt =====
-- backend/orchestrator/subgraphs/retry_agent.py: query generation, execution and regeneration.
-- `State` has the shared state, `Agent` the node that generates a query, `Tools` the node that
-- checks and executes it, `Machine` the cycle of the two. Proofs stand in the other children.
mod State
mod Agent
mod Checks
mod Tools
mod Machine
mod Rule
pub mod Loop
pub mod Guarded
pub mod Verdict
pub mod Finishes
unfoldable pub use State.*
unfoldable pub use Agent.*
unfoldable pub use Checks.*
unfoldable pub use Tools.*
unfoldable pub use Machine.*
