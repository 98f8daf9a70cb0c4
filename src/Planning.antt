-- ===== src/Planning.antt =====
-- backend/orchestrator/planning.py: the validation of an execution plan. `Texts` has the checks of
-- single values, `Order` the topological order, `Validate` the whole.
mod Texts
mod Order
mod Validate
mod Counters
mod Route
mod Draft
pub mod Sorted
pub mod Rounds
mod Found
pub mod Routes
pub mod Counting
unfoldable pub use Texts.*
unfoldable pub use Order.*
unfoldable pub use Validate.*
unfoldable pub use Counters.*
unfoldable pub use Route.*
unfoldable pub use Draft.*
