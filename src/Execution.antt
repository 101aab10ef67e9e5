-- ===== src/Execution.antt =====
-- The pause and resume protocol of the local tool executor (src/deep_agent/msty_execution.py).
pub mod Limits
pub mod Progress
pub mod Walk
pub mod Checks
pub mod Catalog
pub mod Resume
mod Examples
