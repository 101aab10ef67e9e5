-- ===== src/Compaction.antt =====
-- History compaction (src/deep_agent/msty_compaction.py): finding whole tool bundles, the archived
-- segments of a checkpoint, the projection that the model is sent, and the fits without a model.
pub mod Bundles
pub mod Segments
pub mod Projection
pub mod Plan
pub mod Commit
pub mod Trigger
mod Examples
