-- ===== src/Guards.antt =====
-- backend/orchestrator/guards: the checks of a generated Cypher query. `Mask` and `Keywords` have
-- the masking and the search for write keywords, `Labels` the names that a query refers to, and
-- `Cypher` the guard. `Grammar` has queries as they are written, apart from the scan.
mod Mask
mod Keywords
mod Labels
mod Cypher
pub mod Words
pub mod Scanning
pub mod Grammar
pub mod Chains
pub mod Written
pub mod Unknown
pub mod Decision
pub mod Masking
unfoldable pub use Mask.*
unfoldable pub use Keywords.*
unfoldable pub use Labels.*
unfoldable pub use Cypher.*
