-- ===== src/Stream.antt =====
-- The live stream of a generation (src/deep_agent/msty_stream.py): texts are lists of code points.
pub mod Chunks
pub mod Relay
pub mod Published
mod Examples
