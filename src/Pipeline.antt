-- ===== src/Pipeline.antt =====
-- backend/orchestrator/graph.py: the nodes of the query pipeline and the edges between them.
-- `State` has the state that the nodes share, `Request` the search for write requests, `Nodes` the
-- node that makes it, `Strict` the strict query path, `Graph` the nodes and the edges.
mod State
mod Request
mod Nodes
mod Strict
mod Graph
pub mod Updates
pub mod Runs
pub mod Accepted
pub mod Fallback
pub mod Paths
pub mod Keywords
unfoldable pub use State.*
unfoldable pub use Request.*
unfoldable pub use Nodes.*
unfoldable pub use Strict.*
unfoldable pub use Graph.*
