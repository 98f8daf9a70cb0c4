-- ===== src/Compose.antt =====
-- backend/orchestrator/composition.py: the results of a plan's sources become one composed result.
-- `Sources` reads a tool's result, `Transform` has the checks of the BOM transform (of
-- backend/orchestrator/planning.py), `Join` the join of two sources, and `Results` the composition.
mod Types
mod Sources
mod Transform
mod Join
pub mod Scalars
pub mod Keys
pub mod Pairs
mod Results
pub mod Merging
pub mod Matching
pub mod Coherent
unfoldable pub use Types.*
unfoldable pub use Sources.*
unfoldable pub use Transform.*
unfoldable pub use Join.*
unfoldable pub use Results.*
