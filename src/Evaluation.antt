-- ===== src/Evaluation.antt =====
-- backend/evaluation/safety.py: the check of a query before the evaluation runs it.
mod Safety
mod Cleaning
pub mod Stricter
unfoldable pub use Safety.*
