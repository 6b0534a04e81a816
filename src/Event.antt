-- ===== src/Event.antt =====
-- macoro/manual_reset_event.h: any number of threads set and reset an event that coroutines await,
-- each with an operation of its own. A step is one access to shared memory.
mod Defs
pub mod Places
pub mod Guarantees
pub mod Tests
pub use Defs.*
