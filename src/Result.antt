-- ===== src/Result.antt =====
-- macoro/result.h: a value or an error, its accessors, and coroutines that return one.
mod Defs
pub mod Accessors
pub mod Coroutine
pub mod NoValue
pub mod Void
pub mod Tests
pub use Defs.*
