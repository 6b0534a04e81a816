-- ===== src/Stop.antt =====
-- Cancellation: macoro/detail/stop_state.h and .cpp, stop_source, stop_token and stop_callback.
pub mod State
pub mod Refs
pub mod Callback
pub mod Chunks
pub mod Handles
pub mod Tests
