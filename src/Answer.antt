-- ===== src/Answer.antt =====
-- backend/orchestrator/nodes/answer_limits.py: what of a composed result goes into the prompt.
-- `Prefix` cuts one list of rows, `Sections` shares the budget between the sections of a separate
-- result, and `Context` builds the context from both.
mod Prefix
mod Sections
mod Context
pub mod Kept
pub mod Shared
unfoldable pub use Prefix.*
unfoldable pub use Sections.*
unfoldable pub use Context.*
