-- ===== src/Stop/Chunks.antt =====
-- macoro/detail/stop_state.cpp: the chunks of slots that hold the registrations of callbacks, and the
-- search for a free slot. Here no other thread stores meanwhile; the interleavings of the operations
-- are in Stop/Callback.
mod Defs
pub mod Full
pub mod Held
pub mod Removal
pub mod Counts
pub mod Tests
pub use Defs.*
